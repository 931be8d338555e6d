-- ===== src/Selector/Epoll.antt =====
-- server/socket/EpollSelector.cpp: the selector over `epoll`.
use zhttpd.Base.{
  ℕ, suc, ◌-◌, ◌*◌, ltb, leb, member, insert, erase, Distinct, member-insert, member-erase,
  member-erase_same, Distinct-insert, Distinct-erase, Bool, true, false, ◌||◌, List, [], ◌∷◌, ◌++◌,
  length, length-append, if◌then◌else◌, Option, none, some, ◌≡◌, arith, ==_iff, ◌==◌,
}
use zhttpd.Api.{SocketEventType, can_read, can_write, has_error}
use zhttpd.Selector.{Selector}

-- `_nfds` and `_max_events`, and the descriptors that the system watches for it, besides that of the
-- interrupting socket.
pub record EpollSelector : Type 0 where
  pub watched : List ℕ
  pub nfds : ℕ
  pub max_events : ℕ

-- `registerFileDescriptor`: `epoll_ctl` fails on a descriptor that is watched. That it may fail on others
-- too, as where a limit of the system is reached, is not modelled.
unfoldable pub register : ℕ → EpollSelector → EpollSelector
unfolding insert
register fd s =
    if member fd s.watched then s else record s { watched = insert fd s.watched; nfds = suc s.nfds }

-- `unregisterFileDescriptor`: a failure of `epoll_ctl`, on a descriptor that is not watched, is only noted.
unfoldable pub unregister : ℕ → EpollSelector → EpollSelector
unfolding erase
unregister fd s = record s { watched = erase fd s.watched; nfds = s.nfds - 1 }

abbrev pub epoll_size : ℕ
epoll_size = 5000

-- The array of events for `epoll_wait`, which grows with the number of descriptors; `none` where the
-- code throws.
unfoldable pub grow : EpollSelector → Option EpollSelector
grow s =
    if leb epoll_size s.nfds
    then none
    else if ltb s.max_events s.nfds
    then some
        (record s { max_events = if ltb epoll_size (s.nfds * 2) then epoll_size else s.nfds * 2 })
    else some s

-- What the system tells of a descriptor: `EPOLLERR`, `EPOLLRDHUP`, `EPOLLIN` and `EPOLLOUT`.
pub record EpollEvent : Type 0 where
  pub fd : ℕ
  pub error : Bool
  pub hung_up : Bool
  pub readable : Bool
  pub writable : Bool

-- The calls of `notify` for an event, but for that of the interrupting socket.
unfoldable pub notified : ℕ → EpollEvent → List (ℕ × SocketEventType)
notified interrupt e =
    if e.fd == interrupt
    then []
    else if e.error || e.hung_up
    then (e.fd, has_error) ∷ []
    else (if e.readable then (e.fd, can_read) ∷ [] else [])
      ++ (if e.writable then (e.fd, can_write) ∷ [] else [])

-- The loop of `watchSockets` over the events.
unfoldable pub notify_all : ℕ → List EpollEvent → List (ℕ × SocketEventType)
unfolding notified
notify_all interrupt [] = []
notify_all interrupt (e ∷ es) = notified interrupt e ++ notify_all interrupt es

-- The descriptors are counted, with that of the interrupting socket.
pub record IsCounted (s : EpollSelector) : Type 0 where
  pub distinct : Distinct s.watched
  pub counted : s.nfds ≡ suc (length s.watched)

length-insert :
    (fd : ℕ) (fds : List ℕ) → member fd fds ≡ false → length (insert fd fds) ≡ suc (length fds)
unfolding insert
length-insert fd fds h = ground (arith, length-append fds (fd ∷ []))

length-erase :
    (fd : ℕ) (fds : List ℕ) → member fd fds ≡ true → length fds ≡ suc (length (erase fd fds))
unfolding erase
length-erase fd [] h = ground arith
length-erase fd (i ∷ fds) h = ground (arith, length-erase fd fds)

pub register-IsCounted : (fd : ℕ) (s : EpollSelector) → IsCounted s → IsCounted (register fd s)
unfolding register
register-IsCounted fd s h =
    ground (arith, h.distinct, h.counted, Distinct-insert fd s.watched, length-insert fd s.watched)

pub unregister-IsCounted :
    (fd : ℕ) (s : EpollSelector)
    → IsCounted s
    → member fd s.watched ≡ true
    → IsCounted (unregister fd s)
unfolding unregister
unregister-IsCounted fd s h w = record {
  distinct = Distinct-erase fd s.watched h.distinct;
  counted = ground (arith, h.counted, length-erase fd s.watched w);
}

pub member-register :
    (fd other : ℕ) (s : EpollSelector)
    → member other (register fd s).watched ≡ (if other == fd then true else member other s.watched)
unfolding register
member-register fd other s = ground (arith, member-insert other fd s.watched, ==_iff other fd)

pub member-unregister :
    (fd other : ℕ) (s : EpollSelector)
    → IsCounted s
    → member other (unregister fd s).watched
      ≡ (if other == fd then false else member other s.watched)
unfolding unregister
member-unregister fd other s h = ground (
  arith,
  member-erase other fd s.watched,
  member-erase_same fd s.watched h.distinct,
  ==_iff other fd,
)

unfoldable pub epoll : Selector EpollSelector
unfolding register unregister
epoll = record {
  add = register;
  remove = unregister;
  watches = λ s fd. member fd s.watched;
  IsFit = IsCounted;
  add-IsFit = register-IsCounted;
  remove-IsFit = unregister-IsCounted;
  watches-add = member-register;
  watches-remove = member-unregister;
}
