-- ===== src/TaskManager/Visits.antt =====
-- server/core/TaskManager.cpp: what a visit of `_giveWork` to a request does.
use Prim.{tt}
use zhttpd.Base.{
  at_place, elsewhere, member-insert, member, insert, update, ℕ, Bool, true, false, List, [], ◌∷◌,
  ◌++◌, Option, none, some, ◌==◌, ◌≡◌, refl, arith, ap, sym, ◌∙◌, ◌⊎◌, inl, inr, OnSome,
  OnSome-bind, OnSome-if, OnSome-always, OnSome-map, OnSome-eq,
}
use zhttpd.Tasks.{RequestTasks, ModuleTask, get_next_task}
use zhttpd.Tasks.Work.{has_work, has_pending_event}
use zhttpd.Chain.{head}
use zhttpd.Request.{Request, get_request_header, get_response_header}
use zhttpd.TaskManager.{
  TaskManager, hand_over, next_task, keeps_connection, retire, dispatch, visit, queue_task,
}

-- Whether a task of the request is under way.
abbrev pub queued : TaskManager → ℕ → Bool
queued m i = (m.request i).queued

abbrev NextTask : Request → Option ModuleTask × Request → Type 0
NextTask r (none, s) = s.queued ≡ r.queued
NextTask r (some task, s) = s.queued ≡ true

hand_over-NextTask :
    (r : Request) (answer : Bool × RequestTasks) → OnSome (NextTask r) (hand_over r answer)
unfolding hand_over
hand_over-NextTask r (true, t) =
    OnSome-bind (λ _. Unit {0}) (NextTask r) (get_next_task t) _
      (OnSome-always _ (get_next_task t) (λ _. tt)) (λ g _. refl)
hand_over-NextTask r (false, t) = refl

next_task-NextTask : (now : ℕ) (r : Request) → OnSome (NextTask r) (next_task now r)
unfolding next_task
next_task-NextTask now r =
    OnSome-bind (λ _. Unit {0}) (NextTask r) (head r.modules) _
      (OnSome-always _ (head r.modules) (λ _. tt))
      λ first _.
        OnSome-bind (λ _. Unit {0}) (NextTask r) r.modules.tail _
          (OnSome-always _ r.modules.tail (λ _. tt))
          λ last _.
            OnSome-bind (λ _. Unit {0}) (NextTask r) (has_work first.id last.id now r.tasks) _
              (OnSome-always _ (has_work first.id last.id now r.tasks) (λ _. tt))
              λ answer _. hand_over-NextTask r answer

-- The request gets a task under way, or it does not; then it may be marked to be deleted.
abbrev pub Outcome : ℕ → TaskManager → TaskManager → Type 0
Outcome i m n =
    ((task : ModuleTask) × (queued m i ≡ false)
      × (queued n i ≡ true)
      × (n.pending ≡ m.pending ++ (i, task) ∷ [])
      × (n.pending_del ≡ m.pending_del))
    ⊎ ((queued n i ≡ queued m i)
        × (n.pending ≡ m.pending)
        × ((n.pending_del ≡ m.pending_del)
            ⊎ ((queued n i ≡ false) × (n.pending_del ≡ insert i m.pending_del))))

-- A visit to the request `i`.
pub record Visited (i : ℕ) (m n : TaskManager) : Type 0 where
  pub requests : n.requests ≡ m.requests
  pub pending_add : n.pending_add ≡ m.pending_add
  pub running : n.running ≡ m.running
  pub phase : n.phase ≡ m.phase
  pub others : (j : ℕ) → (i == j) ≡ false → queued n j ≡ queued m j
  pub outcome : Outcome i m n

keeps_connection-queued : (r : Request) → (keeps_connection r).1.queued ≡ r.queued
unfolding keeps_connection get_request_header get_response_header
keeps_connection-queued r = ground arith

module _ (i : ℕ) (m : TaskManager) where
  retire-Visited : queued m i ≡ false → OnSome (Visited i m) (retire i m)
  unfolding retire
  retire-Visited h =
      let r = (keeps_connection (m.request i)).1 in
      let here : (update m.request i r i).queued ≡ false =
        ap (λ (s : Request). s.queued) (at_place m.request i r)
        ∙ keeps_connection-queued (m.request i)
        ∙ h in
      let visited : (sockets : ℕ → Bool)
          → Visited i m (record m {
            request = update m.request i r;
            has_socket = sockets;
            pending_del = insert i m.pending_del;
          }) =
        λ sockets. record {
          requests = refl;
          pending_add = refl;
          running = refl;
          phase = refl;
          others = λ j e. ap (λ (s : Request). s.queued) (elsewhere m.request i r j e);
          outcome = inr (here ∙ sym h, refl, inr (here, refl));
        } in
      OnSome-if (Visited i m) (keeps_connection (m.request i)).0 _ _
        (λ _.
          OnSome-if (Visited i m) (m.has_socket i) _ _ (λ _. visited (update m.has_socket i false))
            (λ _. tt))
        (λ _. visited m.has_socket)

  -- A visit after a change of the request that keeps whether it is queued.
  rebase :
      (s : Request) (n : TaskManager)
      → s.queued ≡ queued m i
      → Visited i (record m { request = update m.request i s }) n
      → Visited i m n
  rebase s n h v = record {
    requests = v.requests;
    pending_add = v.pending_add;
    running = v.running;
    phase = v.phase;
    others = λ j e. v.others j e ∙ ap (λ (s : Request). s.queued) (elsewhere m.request i s j e);
    outcome =
        let here : (update m.request i s i).queued ≡ queued m i =
          ap (λ (x : Request). x.queued) (at_place m.request i s) ∙ h in
        elim v.outcome [
          | inl (task, before, after, pending, del) ↦
              inl (task, sym here ∙ before, after, pending, del)
          | inr (same, pending, del) ↦ inr (same ∙ here, pending, del)
        ];
  }

dispatch-Visited :
    (i : ℕ) (m : TaskManager) (g : Option ModuleTask × Request)
    → queued m i ≡ false
    → NextTask (m.request i) g
    → OnSome (Visited i m) (dispatch i g.0 (record m { request = update m.request i g.1 }))
unfolding dispatch queue_task
dispatch-Visited i m (some task, s) h ok = record {
  requests = refl;
  pending_add = refl;
  running = refl;
  phase = refl;
  others = λ j e. ap (λ (x : Request). x.queued) (elsewhere m.request i s j e);
  outcome = inl (task, h, ap (λ (x : Request). x.queued) (at_place m.request i s) ∙ ok, refl, refl);
}
dispatch-Visited i m (none, s) h same =
    let n = record m { request = update m.request i s } in
    let here : queued n i ≡ queued m i =
      ap (λ (x : Request). x.queued) (at_place m.request i s) ∙ same in
    OnSome-if (Visited i m) (has_pending_event (n.request i).tasks) _ _
      (λ _. record {
        requests = refl;
        pending_add = refl;
        running = refl;
        phase = refl;
        others = λ j e. ap (λ (x : Request). x.queued) (elsewhere m.request i s j e);
        outcome = inr (here, refl, inl refl);
      })
      (λ _.
        OnSome-map (Visited i n) (Visited i m) (retire i n) (λ t. rebase i m s t same)
          (retire-Visited i n (here ∙ h)))

pub visit-Visited : (now i : ℕ) (m : TaskManager) → OnSome (Visited i m) (visit now i m)
unfolding visit
visit-Visited now i m =
    OnSome-if (Visited i m) (queued m i) _ _
      (λ _. record {
        requests = refl;
        pending_add = refl;
        running = refl;
        phase = refl;
        others = λ j e. refl;
        outcome = inr (refl, refl, inl refl);
      })
      (λ h.
        OnSome-bind (NextTask (m.request i)) (Visited i m) (next_task now (m.request i)) _
          (next_task-NextTask now (m.request i)) (λ g ok. dispatch-Visited i m g h ok))

-- What becomes of a request that is visited.
abbrev pub Progress : ℕ → TaskManager → Type 0
Progress i n =
    (queued n i ≡ true)
    ⊎ ((has_pending_event (n.request i).tasks ≡ true) ⊎ (member i n.pending_del ≡ true))

member-insert_self : (i : ℕ) (js : List ℕ) → member i (insert i js) ≡ true
member-insert_self i js = member-insert i i js ∙ ground arith

retire-Progress : (i : ℕ) (m : TaskManager) → OnSome (Progress i) (retire i m)
unfolding retire
retire-Progress i m =
    let gone = inr (inr (member-insert_self i m.pending_del)) in
    OnSome-if (Progress i) (keeps_connection (m.request i)).0 _ _
      (λ _. OnSome-if (Progress i) (m.has_socket i) _ _ (λ _. gone) (λ _. tt)) (λ _. gone)

dispatch-Progress :
    (i : ℕ) (m : TaskManager) (g : Option ModuleTask × Request)
    → NextTask (m.request i) g
    → OnSome (Progress i) (dispatch i g.0 (record m { request = update m.request i g.1 }))
unfolding dispatch queue_task
dispatch-Progress i m (some task, s) ok =
    inl (ap (λ (x : Request). x.queued) (at_place m.request i s) ∙ ok)
dispatch-Progress i m (none, s) ok =
    let n = record m { request = update m.request i s } in
    OnSome-if (Progress i) (has_pending_event (n.request i).tasks) _ _ (λ e. inr (inl e))
      (λ _. retire-Progress i n)

-- No request is passed over: after a visit a task of it is under way, or an event of it is to come,
-- or it is marked to be deleted.
pub visit-Progress : (now i : ℕ) (m n : TaskManager) → visit now i m ≡ some n → Progress i n
unfolding visit
visit-Progress now i m n e = OnSome-eq (Progress i) (visit now i m) n e (
    OnSome-if (Progress i) (queued m i) _ _ (λ q. inl q)
      (λ _.
        OnSome-bind (NextTask (m.request i)) (Progress i) (next_task now (m.request i)) _
          (next_task-NextTask now (m.request i)) (λ g ok. dispatch-Progress i m g ok)))
