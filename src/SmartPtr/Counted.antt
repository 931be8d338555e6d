-- ===== src/SmartPtr/Counted.antt =====
-- server/utils/SmartPtr.hpp: an object is deleted when its last pointer goes, and not before.
use Prim.{absurd}
use zhttpd.Base.{
  ◌>>=◌, ℕ, suc, ◌-◌, ◌≤◌, ◌<◌, Bool, Bool-cases, inl, inr, Option, none, ap, sym, ◌∙◌, true, false,
  List, [], ◌∷◌, some, if◌then◌else◌, ◌==◌, ==_iff, update, member, erase, ◌≡◌, ◌↔◌, refl, arith,
  Gives, Gives-bind, Gives-map, Gives-at, occurrences, occurrences-member, occurrences-erase,
}
use zhttpd.SmartPtr.{
  is_readable, attach_from, Outlives, Cells, create, attach, detach, Command, make, copy, end_of,
  assign_new, assign, run, Fits,
}

-- Each count is that of the pointers, and stands exactly as long as there is one.
pub record IsCounted (held : List ℕ) (s : Cells) : Type 0 where
  pub counted : (c : ℕ) → s.alive c ≡ true → s.counts c ≡ occurrences c held
  pub needed : (c : ℕ) → s.alive c ≡ true → 0 < occurrences c held
  pub stands : (c : ℕ) → 0 < occurrences c held → s.alive c ≡ true
  pub older : (c : ℕ) → s.next ≤ c → s.alive c ≡ false

create-IsCounted :
    {held : List ℕ} {s : Cells} → IsCounted held s → IsCounted ((create s).0 ∷ held) (create s).1
unfolding create
create-IsCounted {held} {s} i = record {
  counted = λ c e.
      ground
        (arith, i.counted c, i.stands s.next, i.older s.next, ==_iff s.next c, ==_iff c s.next, e);
  needed = λ c e. ground (arith, i.needed c, ==_iff s.next c, ==_iff c s.next, e);
  stands = λ c h. ground (arith, i.stands c, ==_iff s.next c, ==_iff c s.next, h);
  older = λ c h. ground (arith, i.older c, ==_iff s.next c, h);
}

attach-IsCounted :
    (c : ℕ) {held : List ℕ} {s : Cells}
    → IsCounted held s
    → member c held ≡ true
    → Gives (IsCounted (c ∷ held)) (attach c s)
unfolding attach
attach-IsCounted c {held} {s} i h =
    let e = i.stands c (occurrences-member c held h) in
    (
      record s { counts = update s.counts c (suc (s.counts c)) },
      (
        ground (arith, e),
        record {
          counted = λ d f. ground (arith, i.counted d, ==_iff c d, ==_iff d c, f);
          needed = λ d f. ground (arith, i.needed d, f);
          stands = λ d f. ground (arith, i.stands d, e, ==_iff c d, ==_iff d c, f);
          older = i.older;
        },
      ),
    )

-- The objects whose destructors leave all smart pointers alone.
abbrev pub IsQuiet : (ℕ → Cells → Option Cells) → Type 0
IsQuiet destructor = (c : ℕ) (s : Cells) → destructor c s ≡ some s

fewer : ℕ → Cells → Cells
fewer c s = record s { counts = update s.counts c (s.counts c - 1) }

deleted : ℕ → Cells → Cells
unfolding fewer
deleted c s = record (fewer c s) { alive = update s.alive c false }

fewer-IsCounted :
    (c : ℕ) {held : List ℕ} {s : Cells}
    → IsCounted held s
    → s.alive c ≡ true
    → (s.counts c - 1 == 0) ≡ false
    → IsCounted (erase c held) (fewer c s)
unfolding fewer
fewer-IsCounted c {held} {s} i e z =
    let n = i.counted c e in
    let left = ==_iff (s.counts c - 1) 0 in
    record {
      counted = λ d f.
          ground (arith, i.counted d, n, occurrences-erase d c held, ==_iff c d, ==_iff d c, f);
      needed = λ d f.
          ground
            (arith, i.needed d, n, occurrences-erase d c held, ==_iff c d, ==_iff d c, left, z, f);
      stands = λ d f.
          ground (arith, i.stands d, n, occurrences-erase d c held, ==_iff c d, ==_iff d c, f);
      older = i.older;
    }

deleted-IsCounted :
    (c : ℕ) {held : List ℕ} {s : Cells}
    → IsCounted held s
    → s.alive c ≡ true
    → (s.counts c - 1 == 0) ≡ true
    → IsCounted (erase c held) (deleted c s)
unfolding deleted fewer
deleted-IsCounted c {held} {s} i e z =
    let n = i.counted c e in
    let left = ==_iff (s.counts c - 1) 0 in
    record {
      counted = λ d f.
          ground (arith, i.counted d, n, occurrences-erase d c held, ==_iff c d, ==_iff d c, f);
      needed = λ d f.
          ground (arith, i.needed d, n, occurrences-erase d c held, ==_iff c d, ==_iff d c, f);
      stands = λ d f.
          ground
            (arith, i.stands d, n, occurrences-erase d c held, ==_iff c d, ==_iff d c, left, z, f);
      older = λ d f. ground (arith, i.older d, f);
    }

module _ (destructor : ℕ → Cells → Option Cells) where
  detach_lem :
      (c : ℕ) (s : Cells)
      → s.alive c ≡ true
      → detach destructor c s
        ≡ (if s.counts c - 1 == 0 then destructor c (deleted c s) else some (fewer c s))
  unfolding detach deleted fewer
  detach_lem c s e =
      ap
        (λ (b : Bool).
          if b
          then if s.counts c - 1 == 0 then destructor c (deleted c s) else some (fewer c s)
          else none)
        e

module _ (destructor : ℕ → Cells → Option Cells) (quiet : IsQuiet destructor) where
  detach-IsCounted :
      (c : ℕ) {held : List ℕ} {s : Cells}
      → IsCounted held s
      → member c held ≡ true
      → Gives (IsCounted (erase c held)) (detach destructor c s)
  detach-IsCounted c {held} {s} i h =
      let e = i.stands c (occurrences-member c held h) in
      elim (Bool-cases (s.counts c - 1 == 0)) [
        | inl z ↦ (
          deleted c s,
          (
            detach_lem destructor c s e
                ∙ ap (λ (b : Bool). if b then destructor c (deleted c s) else some (fewer c s)) z
                ∙ quiet c (deleted c s),
            deleted-IsCounted c i e z,
          ),
        )
        | inr z ↦ (
          fewer c s,
          (
            detach_lem destructor c s e
                ∙ ap (λ (b : Bool). if b then destructor c (deleted c s) else some (fewer c s)) z,
            fewer-IsCounted c i e z,
          ),
        )
      ]

  attach_from-IsCounted :
      (d : ℕ) (place : Option ℕ) {held : List ℕ} {s : Cells}
      → IsCounted held s
      → member d held ≡ true
      → is_readable place s ≡ true
      → Gives (IsCounted (d ∷ held)) (attach_from destructor d place s)
  unfolding attach_from
  attach_from-IsCounted d place {held} {s} i h e =
      let (t, (f, j)) = attach-IsCounted d i h in
      (t, (ap (λ (b : Bool). if b then attach d s else none) e ∙ f, j))

  Outlives-is_readable :
      (c : ℕ) (place : Option ℕ) (held : List ℕ) {s : Cells}
      → IsCounted (erase c held) s
      → Outlives c held place
      → is_readable place s ≡ true
  Outlives-is_readable c none held i o = refl
  Outlives-is_readable c (some b) held i o = i.stands b (occurrences-member b (erase c held) o)

  -- A command runs without reading what was deleted, and leaves the counts as they should be.
  run-IsCounted :
      (command : Command) {held : List ℕ} {s : Cells}
      → IsCounted held s
      → Fits command held
      → Gives (λ (d : List ℕ × Cells). IsCounted d.0 d.1) (run destructor command held s)
  unfolding run
  run-IsCounted make i h = (_, (refl, create-IsCounted i))
  run-IsCounted (copy c) {held} {s} i h =
      Gives-bind (IsCounted (c ∷ held)) _ (attach c s) _ (attach-IsCounted c i h)
        (λ t j. ((c ∷ held, t), (refl, j)))
  run-IsCounted (end_of c) {held} {s} i h =
      Gives-bind (IsCounted (erase c held)) _ (detach destructor c s) _ (detach-IsCounted c i h)
        (λ t j. ((erase c held, t), (refl, j)))
  run-IsCounted (assign_new c) {held} {s} i h =
      Gives-bind (IsCounted (erase c held)) _ (detach destructor c s) _ (detach-IsCounted c i h)
        (λ t j. (((create t).0 ∷ erase c held, (create t).1), (refl, create-IsCounted j)))
  run-IsCounted (assign c d place) {held} {s} i h =
      Gives-bind (IsCounted (erase c held)) _ (detach destructor c s) _ (detach-IsCounted c i h.0)
        (λ t j.
          Gives-bind (IsCounted (d ∷ erase c held)) _ (attach_from destructor d place t) _
            (attach_from-IsCounted d place j h.1 (Outlives-is_readable c place held j h.2))
            (λ u k. ((d ∷ erase c held, u), (refl, k))))

-- What commands lead to from a program without pointers.
pub data Reach (destructor : ℕ → Cells → Option Cells) : List ℕ → Cells → Type 0 where
  starts :
      (counts : ℕ → ℕ) (next : ℕ)
      → Reach destructor [] (record { counts = counts; alive = λ c. false; next = next })
  runs :
      (command : Command) {held more : List ℕ} {s t : Cells}
      → Reach destructor held s
      → Fits command held
      → run destructor command held s ≡ some (more, t)
      → Reach destructor more t

Reach-IsCounted :
    (destructor : ℕ → Cells → Option Cells)
    → IsQuiet destructor
    → {held : List ℕ} {s : Cells} → Reach destructor held s
    → IsCounted held s
Reach-IsCounted destructor quiet (starts counts next) = record {
  counted = λ c e. cc;
  needed = λ c e. absurd (ground (arith, e));
  stands = λ c h. absurd (omega (arith, h));
  older = λ c h. refl;
}
Reach-IsCounted destructor quiet (runs command r h e) =
    Gives-at _ _ _ e (run-IsCounted destructor quiet command (Reach-IsCounted destructor quiet r) h)

-- Smart pointers to objects whose destructors leave all smart pointers alone: in every state that they
-- come to, any further command on pointers that are there, in which an assignment does not read a pointer
-- that stands in an object which nothing else holds, runs without reading what was deleted. After it an
-- object stands exactly if a pointer has it, its count being the number of these pointers.
pub Reach-run :
    (destructor : ℕ → Cells → Option Cells) (command : Command) {held : List ℕ} {s : Cells}
    → IsQuiet destructor
    → Reach destructor held s
    → Fits command held
    → Gives
        (λ (d : List ℕ × Cells).
          (c : ℕ)
          → ((d.1.alive c ≡ true) ↔ (0 < occurrences c d.0))
            × (d.1.alive c ≡ true → d.1.counts c ≡ occurrences c d.0))
        (run destructor command held s)
Reach-run destructor command {held} {s} quiet r h =
    Gives-map _ _ (run destructor command held s)
      (run-IsCounted destructor quiet command (Reach-IsCounted destructor quiet r) h)
      (λ d i c. ((i.needed c, i.stands c), i.counted c))

-- What was deleted stays so when a destructor runs.
abbrev pub StaysDeleted : (ℕ → Cells → Option Cells) → Type 0
StaysDeleted destructor =
    (c : ℕ) (s t : Cells) → destructor c s ≡ some t → s.alive c ≡ false → t.alive c ≡ false

deleted_when :
    (destructor : ℕ → Cells → Option Cells) (c : ℕ) (s t : Cells)
    → StaysDeleted destructor
    → s.counts c ≡ 1
    → detach destructor c s ≡ some t
    → t.alive c ≡ false
unfolding detach deleted fewer
deleted_when destructor c s t stays one e = elim (Bool-cases (s.alive c)) [
  | inl a ↦
      stays c (deleted c s) t
        (sym (
            detach_lem destructor c s a
            ∙ ap (λ (n : ℕ). if n - 1 == 0 then destructor c (deleted c s) else some (fewer c s))
                one)
          ∙ e)
        (ground (arith))
  | inr a ↦ absurd (ground (arith, a, e))
]

abbrev then_hold : ℕ → ℕ → List ℕ → Cells → Option (List ℕ × Cells)
then_hold c d held u = some (d ∷ erase c held, u)

no_attach :
    (destructor : ℕ → Cells → Option Cells) (c d : ℕ) (held : List ℕ) (o : Option Cells)
    → ((t : Cells) → o ≡ some t → t.alive c ≡ false)
    → (o >>= (λ (t : Cells). attach_from destructor d (some c) t >>= then_hold c d held)) ≡ none
unfolding attach_from
no_attach destructor c d held none e = refl
no_attach destructor c d held (some t) e =
    ap (λ (b : Bool). (if b then attach d t else none) >>= then_hold c d held) (e t refl)

-- An assignment to the only pointer to an object from a pointer inside that object, as in
-- `p = p->next`, reads the pointer behind the end of the object, if a destructor brings no object back.
pub run-assign_inside :
    (destructor : ℕ → Cells → Option Cells) (c d : ℕ) (held : List ℕ) (s : Cells)
    → StaysDeleted destructor
    → s.counts c ≡ 1
    → run destructor (assign c d (some c)) held s ≡ none
unfolding run
run-assign_inside destructor c d held s stays one =
    no_attach destructor c d held (detach destructor c s)
      (λ t. deleted_when destructor c s t stays one)
