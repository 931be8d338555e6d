-- ===== src/Chain/Processing.antt =====
-- server/core/ModuleList.cpp: where `setProcessingModule` puts a module.
use zhttpd.Base.{
  ℕ, Bool, true, false, List, [], ◌∷◌, ◌++◌, some, ◌≡◌, ◌≢◌, refl, ap, arith, ◌||◌, Bool-cases, ◌⊎◌,
  inl, inr, All,
}
use zhttpd.Chain.{
  ModuleWrapper, ModuleList, placed, is_processing, is_input_output, place, set_processing_module,
  in_response, is_in_response_part,
}

-- A wrapper that the walk goes past.
abbrev pub IsPassed : ModuleWrapper → Type 0
IsPassed w = (is_processing w.category ≡ false) × (is_input_output w.category ≡ false)

-- The chain `ws` is the chain `nodes` with `w` in the place of the first processing module behind
-- the head, or, where an input or output module comes first, with `w` in front of that.
pub data Replaces (w : ModuleWrapper) (nodes ws : List ModuleWrapper) : Type 0 where
  in_place :
      (h old : ModuleWrapper) (pre post : List ModuleWrapper)
      → All IsPassed pre
      → is_processing old.category ≡ true
      → nodes ≡ h ∷ (pre ++ old ∷ post)
      → ws ≡ h ∷ (pre ++ w ∷ post)
      → Replaces w nodes ws
  in_front :
      (h io : ModuleWrapper) (pre post : List ModuleWrapper)
      → All IsPassed pre
      → is_input_output io.category ≡ true
      → nodes ≡ h ∷ (pre ++ io ∷ post)
      → ws ≡ h ∷ (pre ++ w ∷ io ∷ post)
      → Replaces w nodes ws

Replaces-cons :
    (w node next : ModuleWrapper) (rest ws : List ModuleWrapper)
    → IsPassed next
    → Replaces w (next ∷ rest) ws
    → Replaces w (node ∷ next ∷ rest) (node ∷ ws)
Replaces-cons w node next rest ws p (in_place h old pre post a o e f) =
    in_place node old (h ∷ pre) post ((ground arith, ground arith), a) o (ap (◌∷◌ node) e)
      (ap (◌∷◌ node) f)
Replaces-cons w node next rest ws p (in_front h io pre post a o e f) =
    in_front node io (h ∷ pre) post ((ground arith, ground arith), a) o (ap (◌∷◌ node) e)
      (ap (◌∷◌ node) f)

-- Some module behind the head is the end of the walk.
abbrev pub HasEnd : List ModuleWrapper → Type 0
HasEnd [] = ⊥
HasEnd (node ∷ rest) =
    ((is_processing node.category ≡ true) ⊎ (is_input_output node.category ≡ true)) ⊎ HasEnd rest

HasEnd-rest :
    (node : ModuleWrapper) (rest : List ModuleWrapper)
    → is_processing node.category ≡ false
    → is_input_output node.category ≡ false
    → HasEnd (node ∷ rest)
    → HasEnd rest
HasEnd-rest node rest e f (inl (inl x)) = cc
HasEnd-rest node rest e f (inl (inr x)) = cc
HasEnd-rest node rest e f (inr h) = h

place-Replaces :
    (w node : ModuleWrapper) (rest : List ModuleWrapper)
    → HasEnd rest
    → (ws : List ModuleWrapper) × (place w (node ∷ rest) ≡ placed ws) × Replaces w (node ∷ rest) ws
unfolding place
place-Replaces w node [] h = absurd h
place-Replaces w node (next ∷ rest) h = elim (Bool-cases (is_processing next.category)) [
  | inl e ↦ (node ∷ w ∷ rest, simp e, in_place node next [] rest tt e refl refl)
  | inr e ↦ elim (Bool-cases (is_input_output next.category)) [
    | inl f ↦ (node ∷ w ∷ next ∷ rest, simp (e, f), in_front node next [] rest tt f refl refl)
    | inr f ↦
        let (ws, g, r) = place-Replaces w next rest (HasEnd-rest next rest e f h) in
        (node ∷ ws, simp (e, f, g), Replaces-cons w node next rest ws (e, f) r)
  ]
]

-- `setProcessingModule`, on a chain with a processing or an input or output module behind its head,
-- never reads through a null pointer. It puts the module in the place of the first processing
-- module, or in front of an input or output module that comes before any, keeps all other modules
-- in order, and leaves the tail pointer alone.
pub set_processing_module-Replaces :
    (w h : ModuleWrapper) (rest : List ModuleWrapper) (l : ModuleList)
    → l.nodes ≡ h ∷ rest
    → HasEnd rest
    → (k : ModuleList) × (set_processing_module w l ≡ some k)
      × Replaces w l.nodes k.nodes
      × (k.tail ≡ l.tail)
unfolding set_processing_module
set_processing_module-Replaces w h rest l e has =
    let (ws, g, r) = place-Replaces w h rest has in
    (record l { nodes = ws }, ground (arith, g), rw e r, refl)

-- Ids of the chain, to tell wrappers apart.
abbrev pub Avoids : ℕ → List ModuleWrapper → Type 0
Avoids id ws = All (λ v. v.id ≢ id) ws

abbrev pub has_processing : List ModuleWrapper → Bool
has_processing [] = false
has_processing (v ∷ vs) = is_processing v.category || has_processing vs

in_response-append :
    (pre post : List ModuleWrapper) (w : ModuleWrapper)
    → Avoids w.id pre
    → in_response w.id (pre ++ w ∷ post) ≡ some (has_processing (pre ++ w ∷ []))
unfolding in_response
in_response-append [] post w a = ground arith
in_response-append (v ∷ pre) post w a = ground (arith, in_response-append pre post w a.1)

-- `isInResponsePart` tells a wrapper of the chain which part it is in: the response part exactly if
-- a processing module stands at it or before it. It never runs off the chain.
pub is_in_response_part_lem :
    (l : ModuleList) (pre post : List ModuleWrapper) (w : ModuleWrapper)
    → l.nodes ≡ pre ++ w ∷ post
    → Avoids w.id pre
    → is_in_response_part w.id l ≡ some (has_processing (pre ++ w ∷ []))
unfolding is_in_response_part
is_in_response_part_lem l pre post w e a = rw e (in_response-append pre post w a)
