-- ===== src/Selector.antt =====
-- What server/socket/SocketPool.hpp asks of its selector, a template parameter: which descriptors it
-- watches.
pub mod Basic
pub mod Epoll
pub mod Prepare
use zhttpd.Base.{ℕ, Bool, true, false, ◌==◌, if◌then◌else◌, ◌≡◌}

-- `registerFileDescriptor` and `unregisterFileDescriptor`, what is watched, and which states the
-- selector comes to.
pub record Selector (S : Type 0) : Type 1 where
  pub add : ℕ → S → S
  pub remove : ℕ → S → S
  pub watches : S → ℕ → Bool
  pub IsFit : S → Type 0
  pub add-IsFit : (fd : ℕ) (s : S) → IsFit s → IsFit (add fd s)
  pub remove-IsFit : (fd : ℕ) (s : S) → IsFit s → watches s fd ≡ true → IsFit (remove fd s)
  pub watches-add :
      (fd other : ℕ) (s : S)
      → watches (add fd s) other ≡ (if other == fd then true else watches s other)
  pub watches-remove :
      (fd other : ℕ) (s : S)
      → IsFit s
      → watches (remove fd s) other ≡ (if other == fd then false else watches s other)
