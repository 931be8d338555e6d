-- ===== src/TaskManager/Invariant.antt =====
-- server/core/TaskManager.cpp: which requests have a task under way, in every state that the server
-- comes to.
use Prim.{tt, absurd}
use mathlib.Core.Path.{subst}
use zhttpd.Base.{
  member, Distinct, member-insert, member-apart, ℕ, ◌+◌, true, false, List, [], ◌∷◌, ◌++◌, ◌≡◌,
  refl, arith, ap, sym, ◌∙◌, inl, inr, ==_iff, OnSome,
}
use zhttpd.Tasks.{ModuleTask}
use zhttpd.Request.{Request}
use zhttpd.TaskManager.{
  TaskManager, Phase, giving, deleting, adding, start_request, take_from, notify_end_task,
}
use zhttpd.TaskManager.Visits.{queued, Visited}
use zhttpd.TaskManager.Steps.{admit, idle_server}
use zhttpd.TaskManager.Counts.{count, weight, count-append}

-- The requests that the loop has not visited are held and are not to be deleted.
abbrev pub Left : Phase → List ℕ → List ℕ → Type 0
Left (giving is) held del =
    Distinct is × ((j : ℕ) → member j is ≡ true → (member j held ≡ true) × (member j del ≡ false))
Left deleting held del = Unit
Left adding held del = del ≡ []

-- A request is queued exactly if one task of it is in the pool or runs, and then it is held.
pub record Inv (m : TaskManager) : Type 0 where
  pub flight : (i : ℕ) → count i m.pending + count i m.running ≡ weight (queued m i)
  pub listed : (i : ℕ) → queued m i ≡ true → member i m.requests ≡ true
  pub idle : (i : ℕ) → member i m.pending_del ≡ true → queued m i ≡ false
  pub distinct : Distinct m.requests
  pub left : Left m.phase m.requests m.pending_del

pub idle_server-Inv : (f : ℕ → Request) → ((i : ℕ) → (f i).queued ≡ false) → Inv (idle_server f)
idle_server-Inv f h = record {
  flight = λ i. rw (h i) (omega arith);
  listed = λ i e. absurd (ground (arith, h i));
  idle = λ i e. h i;
  distinct = tt;
  left = (tt, λ j e. cc);
}

module _ {m : TaskManager} (inv : Inv m) where
  -- Changes that keep what is queued, held and under way.
  pub keep :
      (n : TaskManager)
      → ((i : ℕ) → queued n i ≡ queued m i)
      → n.pending ≡ m.pending
      → n.running ≡ m.running
      → n.requests ≡ m.requests
      → n.pending_del ≡ m.pending_del
      → Left n.phase m.requests m.pending_del
      → Inv n
  keep n q p r h d l = record {
    flight = λ i. rw (q i, p, r) (inv.flight i);
    listed = λ i e. rw h (inv.listed i (sym (q i) ∙ e));
    idle = λ i e. q i ∙ inv.idle i (ap (member i) (sym d) ∙ e);
    distinct = rw h inv.distinct;
    left = rw (h, d) l;
  }

  pub admit-Inv :
      (i : ℕ) (r : Request)
      → queued m i ≡ false
      → r.queued ≡ false
      → Inv (start_request i (admit i r m))
  unfolding start_request
  admit-Inv i r h q =
      keep (start_request i (admit i r m)) (λ j. ground (arith, ==_iff i j)) refl refl refl refl
        inv.left

  pub take_from-Inv : (ws : List (ℕ × ModuleTask)) → m.pending ≡ ws → OnSome Inv (take_from ws m)
  unfolding take_from
  take_from-Inv [] e = tt
  take_from-Inv ((i, task) ∷ ws) e = record {
    flight = λ j.
        let total = ap (count j) e in
        ground (arith, inv.flight j, total, count-append j m.running ((i, task) ∷ []));
    listed = inv.listed;
    idle = inv.idle;
    distinct = inv.distinct;
    left = inv.left;
  }

  pub notify_end_task-Inv :
      (i : ℕ) (task : ModuleTask) (r : Request) (before after : List (ℕ × ModuleTask))
      → m.running ≡ before ++ (i, task) ∷ after
      → Inv (notify_end_task i r (before ++ after) m)
  unfolding notify_end_task
  notify_end_task-Inv i task r before after e = record {
    flight = λ j.
        let total = ap (count j) e in
        ground (
          arith,
          inv.flight j,
          total,
          count-append j before ((i, task) ∷ after),
          count-append j before after,
          ==_iff i j,
        );
    listed = λ j q. ground (arith, inv.listed j);
    idle = λ j d. ground (arith, inv.idle j);
    distinct = inv.distinct;
    left = inv.left;
  }

  -- What the loop of `_giveWork` goes on with.
  Visited-Left :
      (i : ℕ) (is : List ℕ) (n : TaskManager)
      → m.phase ≡ giving (i ∷ is)
      → Visited i (record m { phase = giving is }) n
      → Left n.phase n.requests n.pending_del
  Visited-Left i is n e v =
      let ((new, distinct), open_left) = subst (λ p. Left p m.requests m.pending_del) e inv.left in
      rw (v.phase, v.requests)
        (
          distinct,
          λ j h.
              let (held, kept) = open_left j (ground arith) in
              let apart = member-apart i j is new h in
              (
                held,
                elim v.outcome [
                  | inl (task, b, a, p, d) ↦ rw d kept
                  | inr (same, p, inl d) ↦ rw d kept
                  | inr (same, p, inr (q, d)) ↦
                      rw d (member-insert j i m.pending_del ∙ ground arith)
                ],
              ),
        )

  Visited-held :
      (i : ℕ) (is : List ℕ)
      → m.phase ≡ giving (i ∷ is)
      → (member i m.requests ≡ true) × (member i m.pending_del ≡ false)
  Visited-held i is e =
      let (distinct, open_left) = subst (λ p. Left p m.requests m.pending_del) e inv.left in
      open_left i (ground arith)

  pub Visited-Inv :
      (i : ℕ) (is : List ℕ) (n : TaskManager)
      → m.phase ≡ giving (i ∷ is)
      → Visited i (record m { phase = giving is }) n
      → Inv n
  Visited-Inv i is n e v = record {
    flight = λ j. elim v.outcome [
      | inl (task, before, after, p, d) ↦
          let total = ap (count j) p in
          let running = ap (count j) v.running in
          ground (
            arith,
            inv.flight j,
            total,
            running,
            count-append j m.pending ((i, task) ∷ []),
            v.others j,
            ==_iff i j,
          )
      | inr (same, p, d) ↦
          let total = ap (count j) p in
          let running = ap (count j) v.running in
          ground (arith, inv.flight j, total, running, v.others j, ==_iff i j)
    ];
    listed = λ j q.
        ap (member j) v.requests
        ∙ ground (arith, (Visited-held i is e).0, inv.listed j, v.others j, ==_iff i j);
    idle = λ j d.
        let (held, kept) = Visited-held i is e in
        elim v.outcome [
          | inl (task, b, a, p, del) ↦
              let was = sym (ap (member j) del) ∙ d in
              ground (arith, kept, was, inv.idle j, v.others j, ==_iff i j)
          | inr (same, p, inl del) ↦
              let was = sym (ap (member j) del) ∙ d in
              ground (arith, kept, was, inv.idle j, v.others j, ==_iff i j)
          | inr (same, p, inr (q, del)) ↦
              let was = sym (member-insert j i m.pending_del) ∙ sym (ap (member j) del) ∙ d in
              ground (arith, q, was, inv.idle j, v.others j, ==_iff i j, ==_iff j i)
        ];
    distinct = rw v.requests inv.distinct;
    left = Visited-Left i is n e v;
  }
