-- ===== src/TaskManager/Reachable.antt =====
-- server/core/TaskManager.cpp: what holds in every state that the server comes to, whatever its
-- threads do.
use Prim.{tt, absurd}
use mathlib.Core.Path.{subst}
use zhttpd.Base.{
  member, erase, update, Distinct, Distinct-insert_all, member-insert_all, member-erase,
  Distinct-erase, ℕ, ◌+◌, true, false, List, [], ◌∷◌, Option, some, ◌≡◌, refl, arith, ap, sym, ◌∙◌,
  ◌⊎◌, ==_iff, ◌>>=◌, OnSome, OnSome-map, OnSome-eq,
}
use zhttpd.Request.{Request}
use zhttpd.TaskManager.{
  TaskManager, Phase, giving, deleting, adding, visit, end_request, end_all, del_pending_requests,
  add_pending_requests, advance_from, advance, take_task,
}
use zhttpd.TaskManager.Visits.{queued, Visited, visit-Visited}
use zhttpd.TaskManager.Steps.{
  Step, advances, starts, takes, finishes, touches, Reach, begins, later,
}
use zhttpd.TaskManager.Counts.{count}
use zhttpd.TaskManager.Invariant.{
  Inv, Left, keep, idle_server-Inv, admit-Inv, take_from-Inv, notify_end_task-Inv, Visited-Inv,
}

end_request-unqueued :
    (i : ℕ) (m : TaskManager)
    → queued m i ≡ false
    → end_request i m
      ≡ some (record m { requests = erase i m.requests; has_socket = update m.has_socket i false })
unfolding end_request
end_request-unqueued i m h = rw h

-- Ending requests that are not queued.
record Ended (is : List ℕ) (m n : TaskManager) : Type 0 where
  request : n.request ≡ m.request
  pending : n.pending ≡ m.pending
  running : n.running ≡ m.running
  pending_add : n.pending_add ≡ m.pending_add
  gone : (j : ℕ) → member j is ≡ false → member j n.requests ≡ member j m.requests
  distinct : Distinct m.requests → Distinct n.requests

end_all-Ended :
    (is : List ℕ) (m : TaskManager)
    → ((j : ℕ) → member j is ≡ true → queued m j ≡ false)
    → (n : TaskManager) × (end_all is m ≡ some n) × Ended is m n
unfolding end_all end_request
end_all-Ended [] m h = (
  m,
  refl,
  record {
    request = refl;
    pending = refl;
    running = refl;
    pending_add = refl;
    gone = λ j e. refl;
    distinct = λ d. d;
  },
)
end_all-Ended (i ∷ is) m h =
    let first = record m {
      requests = erase i m.requests;
      has_socket = update m.has_socket i false;
    } in
    let (n, e, ended) = end_all-Ended is first (λ j g. h j (ground arith)) in
    (
      n,
      ap (λ o. o >>= end_all is) (end_request-unqueued i m (h i (ground arith))) ∙ e,
      record {
        request = ended.request;
        pending = ended.pending;
        running = ended.running;
        pending_add = ended.pending_add;
        gone = λ j g. ended.gone j (ground arith) ∙ member-erase j i m.requests (ground arith);
        distinct = λ d. ended.distinct (Distinct-erase i m.requests d);
      },
    )

-- The requests to be deleted are not queued, so that the assertion of `endRequest` holds.
pub del_pending_requests-Inv :
    (m : TaskManager)
    → Inv m
    → (n : TaskManager) × (del_pending_requests m ≡ some n) × Inv (record n { phase = adding })
unfolding del_pending_requests
del_pending_requests-Inv m inv =
    let (n, e, ended) = end_all-Ended m.pending_del m inv.idle in
    (
      record n { pending_del = [] },
      ap
          (λ (o : Option TaskManager).
            o >>= λ (x : TaskManager). some (record x { pending_del = [] }))
          e,
      record {
        flight = λ i. rw (ended.pending, ended.running, ended.request) (inv.flight i);
        listed = λ i q.
            let was : queued m i ≡ true =
              ap (λ (f : ℕ → Request). (f i).queued) (sym ended.request) ∙ q in
            ended.gone i (ground (arith, inv.idle i)) ∙ inv.listed i was;
        idle = λ i d. absurd (ground arith);
        distinct = ended.distinct inv.distinct;
        left = refl;
      },
    )

add_pending_requests-Inv :
    (m : TaskManager)
    → Inv m
    → m.phase ≡ adding
    → Inv (let n = add_pending_requests m in record n { phase = giving n.requests })
unfolding add_pending_requests
add_pending_requests-Inv m inv e =
    let none_left : m.pending_del ≡ [] = subst (λ p. Left p m.requests m.pending_del) e inv.left in
    let distinct = Distinct-insert_all m.pending_add m.requests inv.distinct in
    record {
      flight = inv.flight;
      listed = λ i q. member-insert_all i m.pending_add m.requests (inv.listed i q);
      idle = inv.idle;
      distinct = distinct;
      left = (distinct, λ j h. (h, rw none_left refl));
    }

advance_from-Inv :
    (now : ℕ) (p : Phase) (m : TaskManager)
    → Inv m
    → m.phase ≡ p
    → OnSome Inv (advance_from now p m)
unfolding advance_from
advance_from-Inv now (giving []) m inv e = keep inv _ (λ i. refl) refl refl refl refl tt
advance_from-Inv now (giving (i ∷ is)) m inv e =
    OnSome-map (Visited i (record m { phase = giving is })) Inv
      (visit now i (record m { phase = giving is })) (λ n v. Visited-Inv inv i is n e v)
      (visit-Visited now i (record m { phase = giving is }))
advance_from-Inv now deleting m inv e =
    let (n, d, after) = del_pending_requests-Inv m inv in
    subst
      (λ (o : Option TaskManager).
        OnSome Inv (o >>= λ (x : TaskManager). some (record x { phase = adding })))
      (sym d) after
advance_from-Inv now adding m inv e = add_pending_requests-Inv m inv e

Step-Inv : {m n : TaskManager} → Step m n → Inv m → Inv n
unfolding advance take_task
Step-Inv (advances now {m} {n} e) inv =
    OnSome-eq Inv (advance now m) n e (advance_from-Inv now m.phase m inv refl)
Step-Inv (starts i r {m} new fresh idle q) inv = admit-Inv inv i r idle q
Step-Inv (takes {m} {n} e) inv = OnSome-eq Inv (take_task m) n e (take_from-Inv inv m.pending refl)
Step-Inv (finishes i task r before after {m} e) inv =
    notify_end_task-Inv inv i task r before after e
Step-Inv (touches i t {m}) inv =
    keep inv _ (λ j. ground (arith, ==_iff i j)) refl refl refl refl inv.left

pub Reach-Inv : {m : TaskManager} → Reach m → Inv m
Reach-Inv (begins {f} h) = idle_server-Inv f h
Reach-Inv (later r s) = Step-Inv s (Reach-Inv r)

-- In every state that the server comes to, whatever its threads did and in whatever order: a request
-- has no task in the pool or in a thread, or it has one and no more, and then it is held.
pub Reach-one_task :
    {m : TaskManager} (i : ℕ)
    → Reach m
    → (count i m.pending + count i m.running ≡ 0)
      ⊎ ((count i m.pending + count i m.running ≡ 1) × (member i m.requests ≡ true))
Reach-one_task {m} i r = let inv = Reach-Inv r in ground (arith, inv.flight i, inv.listed i)

-- In every such state the deletion of the requests that are marked for it succeeds, where the code
-- asserts that they are not queued, and none of them has a task in the pool or in a thread.
pub Reach-del_pending_requests :
    {m : TaskManager} (i : ℕ)
    → Reach m
    → member i m.pending_del ≡ true
    → (n : TaskManager) × (del_pending_requests m ≡ some n)
      × (count i m.pending + count i m.running ≡ 0)
Reach-del_pending_requests {m} i r d =
    let inv = Reach-Inv r in
    let (n, e, after) = del_pending_requests-Inv m inv in
    (n, e, ground (arith, inv.flight i, inv.idle i d))
