-- ===== src/Selector/Basic.antt =====
-- server/socket/BasicSocketSelector.cpp: the selector over `select`.
use zhttpd.Base.{
  ℕ, suc, ltb, leb, member, insert, erase, Distinct, member-insert, member-erase, member-erase_same,
  Distinct-insert, Distinct-erase, Bool, true, false, not, List, [], ◌∷◌, ◌++◌, if◌then◌else◌, ◌≡◌,
  arith, ==_iff, ◌==◌,
}
use zhttpd.Selector.{Selector}

-- `_fdlist`, and how often the watch was interrupted, each time by a byte to the socket for it.
pub record BasicSocketSelector : Type 0 where
  pub fdlist : List ℕ
  pub interrupts : ℕ

-- `registerFileDescriptor`.
unfoldable pub register : ℕ → BasicSocketSelector → BasicSocketSelector
unfolding insert
register fd s =
    if member fd s.fdlist
    then s
    else record s { fdlist = insert fd s.fdlist; interrupts = suc s.interrupts }

-- `unregisterFileDescriptor`.
unfoldable pub unregister : ℕ → BasicSocketSelector → BasicSocketSelector
unfolding erase
unregister fd s = if member fd s.fdlist then record s { fdlist = erase fd s.fdlist } else s

pub register-Distinct :
    (fd : ℕ) (s : BasicSocketSelector) → Distinct s.fdlist → Distinct (register fd s).fdlist
unfolding register
register-Distinct fd s h = ground (arith, Distinct-insert fd s.fdlist h)

pub unregister-Distinct :
    (fd : ℕ) (s : BasicSocketSelector) → Distinct s.fdlist → Distinct (unregister fd s).fdlist
unfolding unregister
unregister-Distinct fd s h = ground (arith, Distinct-erase fd s.fdlist h)

pub member-register :
    (fd other : ℕ) (s : BasicSocketSelector)
    → member other (register fd s).fdlist ≡ (if other == fd then true else member other s.fdlist)
unfolding register
member-register fd other s = ground (arith, member-insert other fd s.fdlist, ==_iff other fd)

pub member-unregister :
    (fd other : ℕ) (s : BasicSocketSelector)
    → Distinct s.fdlist
    → member other (unregister fd s).fdlist ≡ (if other == fd then false else member other s.fdlist)
unfolding unregister
member-unregister fd other s h =
    ground (arith, member-erase other fd s.fdlist, member-erase_same fd s.fdlist h, ==_iff other fd)

unfoldable pub basic : Selector BasicSocketSelector
unfolding register unregister
basic = record {
  add = register;
  remove = unregister;
  watches = λ s fd. member fd s.fdlist;
  IsFit = λ s. Distinct s.fdlist;
  add-IsFit = register-Distinct;
  remove-IsFit = λ fd s h w. unregister-Distinct fd s h;
  watches-add = member-register;
  watches-remove = member-unregister;
}

-- `_max_fd`, the descriptors in the sets for reading and for writing, which are the same, and those
-- that were told an error.
pub record Prepared : Type 0 where
  pub max_fd : ℕ
  pub set : List ℕ
  pub failed : List ℕ

abbrev pub is_same : Bool → Bool → Bool
is_same true b = b
is_same false b = not b

-- `FD_SETSIZE` of the system, less one.
module _ (limit : ℕ) where
  -- Both uses of `PREPARE_SOCKET` for a descriptor: the second finds it no larger than `_max_fd`.
  unfoldable pub prepare_socket : ℕ → Prepared → Prepared
  prepare_socket fd r =
      if ltb r.max_fd fd
      then (if leb limit fd
          then record r { failed = r.failed ++ fd ∷ [] }
          else record r { max_fd = fd; set = r.set ++ fd ∷ [] })
      else record r { set = r.set ++ fd ∷ [] }

  -- `_prepareSockets`.
  unfoldable pub prepare_sockets : List ℕ → Prepared → Prepared
  unfolding prepare_socket
  prepare_sockets [] r = r
  prepare_sockets (fd ∷ fds) r = prepare_sockets fds (prepare_socket fd r)

  -- The descriptors that are below the limit, or not.
  abbrev pub sorted_out : Bool → List ℕ → List ℕ
  sorted_out small [] = []
  sorted_out small (fd ∷ fds) =
      if is_same (ltb fd limit) small then fd ∷ sorted_out small fds else sorted_out small fds
