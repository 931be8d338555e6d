-- ===== src/SocketPool/Watch.antt =====
-- server/socket/SocketPool.hpp with server/core/RequestTasks.cpp: the pool watches the socket of a request
-- exactly while the request awaits an event of it.
use Prim.{absurd}
use mathlib.Core.Path.{subst}
use mathlib.Core.Bool.{true≢false}
use zhttpd.Base.{
  ℕ, ◌<◌, lt→ltb, ◌==◌, ==_iff, Bool, true, false, List, [], ◌∷◌, Option, none, some, if◌then◌else◌,
  ◌≡◌, refl, ap, sym, ◌∙◌, arith, at_place, elsewhere, Gives, Gives-bind,
}
use zhttpd.SocketEvents
use zhttpd.SocketEvents.{SocketEvent}
use zhttpd.Selector.{Selector}
use zhttpd.Tasks.{RequestTasks, PoolCall, monitor, ignore, init}
use zhttpd.Tasks.Work.{Call, run}
use zhttpd.Tasks.Registration.{Alternates, awaits, run-Inv}
use zhttpd.SocketPool.{
  SocketPool, events_size, handled_by, enabled_at, register_handler, put_out, unregister_handler,
  replay,
}

module _ {S : Type 0} (sel : Selector S) (fd other : ℕ) where
  -- The event of the descriptor is enabled, and the selector watches it, or neither; another descriptor
  -- is as it was in the pool `before`.
  pub record Watches (before : SocketPool S) (b : Bool) (p : SocketPool S) : Type 0 where
    pub enabled : enabled_at (p.events fd) ≡ b
    pub watched : sel.watches p.selector fd ≡ b
    pub fit : sel.IsFit p.selector
    pub other_event : (other == fd) ≡ false → p.events other ≡ before.events other
    pub other_watched :
        (other == fd) ≡ false → sel.watches p.selector other ≡ sel.watches before.selector other

  turned : (other == fd) ≡ false → (fd == other) ≡ false
  turned e = ground (arith, ==_iff fd other, ==_iff other fd)

  enabled-handled_by :
      (object : ℕ) (o : Option SocketEvent) → enabled_at (some (handled_by object o)) ≡ true
  unfolding SocketEvents.init SocketEvents.set_handler
  enabled-handled_by object none = refl
  enabled-handled_by object (some e) = refl

  register_handler-Watches :
      (before : SocketPool S) (object : ℕ) (b : Bool) (p : SocketPool S)
      → fd < events_size
      → Watches before b p
      → Gives (Watches before true) (register_handler sel fd object p)
  unfolding register_handler
  register_handler-Watches before object b p h w = rw (lt→ltb fd events_size h) (
    _,
    (
      refl,
      record {
        enabled = ap enabled_at (at_place p.events fd _) ∙ enabled-handled_by object (p.events fd);
        watched = sel.watches-add fd fd p.selector ∙ ground (arith, ==_iff fd fd);
        fit = sel.add-IsFit fd p.selector w.fit;
        other_event = λ e. elsewhere p.events fd _ other (turned e) ∙ w.other_event e;
        other_watched = λ e.
            sel.watches-add fd other p.selector
            ∙ ap (λ b. if b then true else sel.watches p.selector other) e
            ∙ w.other_watched e;
      },
    ),
  )

  put_out-Watches :
      (before : SocketPool S) (o : Option SocketEvent) (p : SocketPool S)
      → p.events fd ≡ o
      → Watches before true p
      → Gives (Watches before false) (put_out sel fd o p)
  unfolding put_out SocketEvents.disable
  put_out-Watches before none p e w = absurd (true≢false (sym w.enabled ∙ ap enabled_at e))
  put_out-Watches before (some e) p f w =
      let on : e.enabled ≡ true = sym (ap enabled_at f) ∙ w.enabled in
      rw on (
        _,
        (
          refl,
          record {
            enabled = ap enabled_at (at_place p.events fd _);
            watched = sel.watches-remove fd fd p.selector w.fit ∙ ground (arith, ==_iff fd fd);
            fit = sel.remove-IsFit fd p.selector w.fit w.watched;
            other_event = λ g. elsewhere p.events fd _ other (turned g) ∙ w.other_event g;
            other_watched = λ g.
                sel.watches-remove fd other p.selector w.fit
                ∙ ap (λ b. if b then false else sel.watches p.selector other) g
                ∙ w.other_watched g;
          },
        ),
      )

  unregister_handler-Watches :
      (before : SocketPool S) (p : SocketPool S)
      → fd < events_size
      → Watches before true p
      → Gives (Watches before false) (unregister_handler sel fd p)
  unfolding unregister_handler
  unregister_handler-Watches before p h w =
      rw (lt→ltb fd events_size h) (put_out-Watches before (p.events fd) p refl w)

  replay-Watches :
      (before : SocketPool S) (object : ℕ) (b : Bool) (cs : List PoolCall)
      → fd < events_size
      → Watches before false before
      → Alternates b cs
      → Gives (Watches before b) (replay sel fd object cs before)
  unfolding replay
  replay-Watches before object b [] h w a = (before, (refl, rw a w))
  replay-Watches before object true (monitor ∷ cs) h w a =
      Gives-bind _ _ _ _ (replay-Watches before object false cs h w a)
        (λ p v. register_handler-Watches before object false p h v)
  replay-Watches before object false (ignore ∷ cs) h w a =
      Gives-bind _ _ _ _ (replay-Watches before object true cs h w a)
        (λ p v. unregister_handler-Watches before p h v)
  replay-Watches before object true (ignore ∷ cs) h w a = absurd a
  replay-Watches before object false (monitor ∷ cs) h w a = absurd a

  -- Whatever calls a new request goes through, what it asks of the pool for its socket succeeds, on a
  -- pool with any selector that does not watch that socket yet and has a place for it. Then the pool
  -- watches the socket exactly if the request awaits an event of it that has not come and is not in
  -- error, and any other socket as before.
  pub replay-run :
      (now object : ℕ) (cs : List Call) (u : RequestTasks) (before : SocketPool S)
      → fd < events_size
      → Watches before false before
      → run cs (init now) ≡ some u
      → Gives (Watches before (awaits u)) (replay sel fd object u.pool_calls before)
  replay-run now object cs u before h w e =
      let v = run-Inv now cs u e in
      subst (λ b. Gives (Watches before b) (replay sel fd object u.pool_calls before))
        v.registered_iff (replay-Watches before object u.registered u.pool_calls h w v.alternating)
