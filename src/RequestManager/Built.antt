-- ===== src/RequestManager/Built.antt =====
-- server/core/RequestManager.hpp with server/modules/Builder: the chain of a request after its builder.
use Prim.{tt, absurd}
use mathlib.Core.Path.{subst}
use zhttpd.Base.{
  ℕ, ◌<◌, true, Bytes, List, [], ◌∷◌, ◌++◌, Option, none, some, ◌≡◌, refl, ap, sym, ◌∙◌, arith, inl,
  inr, Option-cases, append_assoc,
}
use zhttpd.Api.{Category}
use zhttpd.Chain.{ModuleWrapper, ModuleList, is_input_output, set_processing_module, append}
use zhttpd.Chain
use zhttpd.Chain.Processing.{HasEnd, set_processing_module-Replaces}
use zhttpd.Request.{Request, append_module, init}
use zhttpd.Builder.{FileSystem, Modules, module_for, find_modules}
use zhttpd.Builder.Order.{categories, picks, picked, chain_order, find_modules-ordered}
use zhttpd.RequestManager.{new_request, append_modules}

-- The values of `api::category::Type`.
abbrev pub value : Category → ℕ
value Category.undefined = 0
value Category.input_output = 1
value Category.post_input = 2
value Category.pre_build = 3
value Category.pre_request_filter = 4
value Category.uncompress = 5
value Category.post_request_filter = 6
value Category.pre_processing = 7
value Category.processing = 8
value Category.post_processing = 9
value Category.pre_response_filter = 10
value Category.compress = 11
value Category.post_response_filter = 12
value Category.pre_output = 13

-- Categories in strictly ascending order, above a value.
abbrev pub Ascends : ℕ → List Category → Type 0
Ascends n [] = Unit
Ascends n (c ∷ cs) = (n < value c) × Ascends (value c) cs

Ascends-weaken : (n m : ℕ) (cs : List Category) → n < m → Ascends m cs → Ascends n cs
Ascends-weaken n m [] h a = tt
Ascends-weaken n m (c ∷ cs) h (g, a) = (omega arith, a)

module _ (fs : FileSystem) (conf : Modules) (now : ℕ) where
  picks-Ascends :
      (n : ℕ) (cs : List Category)
      → ((c : Category) (name : Bytes)
          → module_for fs conf now c ≡ some name
          → conf.category_of name ≡ c)
      → Ascends n cs
      → Ascends n (picks fs conf now cs [])
  picks-Ascends n [] h a = tt
  picks-Ascends n (c ∷ cs) h (g, a) = elim (Option-cases (module_for fs conf now c)) [
    | inl e ↦ rw e (Ascends-weaken n (value c) _ g (picks-Ascends (value c) cs h a))
    | inr (name, e) ↦ rw e (rw (h c name e) (g, picks-Ascends (value c) cs h a))
  ]

  picks-append :
      (cs rest : List Category) → picks fs conf now cs rest ≡ picks fs conf now cs [] ++ rest
  picks-append [] rest = refl
  picks-append (c ∷ cs) rest =
      ap (λ xs. picked fs conf now (module_for fs conf now c) ++ xs) (picks-append cs rest)
      ∙ sym (
          append_assoc (picked fs conf now (module_for fs conf now c)) (picks fs conf now cs [])
            rest)

  -- The categories for which there is a module, in the order given.
  abbrev if_found : Category → Option Bytes → List Category
  if_found c none = []
  if_found c (some name) = c ∷ []

  abbrev pub with_module : List Category → List Category
  with_module [] = []
  with_module (c ∷ cs) = if_found c (module_for fs conf now c) ++ with_module cs

  picks-with_module :
      (cs : List Category)
      → ((c : Category) (name : Bytes)
          → module_for fs conf now c ≡ some name
          → conf.category_of name ≡ c)
      → picks fs conf now cs [] ≡ with_module cs
  picks-with_module [] h = refl
  picks-with_module (c ∷ cs) h = elim (Option-cases (module_for fs conf now c)) [
    | inl e ↦ rw e (picks-with_module cs h)
    | inr (name, e) ↦ rw e (rw (h c name e) (ap (λ xs. c ∷ xs) (picks-with_module cs h)))
  ]

chain_order-Ascends : Ascends 3 chain_order
chain_order-Ascends = (
  omega arith,
  (
    omega arith,
    (
      omega arith,
      (
        omega arith,
        (
          omega arith,
          (omega arith, (omega arith, (omega arith, (omega arith, (omega arith, tt))))),
        ),
      ),
    ),
  ),
)

HasEnd-output :
    (io : Category) (ws : List ModuleWrapper) (cs : List Category)
    → is_input_output io ≡ true
    → categories ws ≡ cs ++ io ∷ []
    → HasEnd ws
HasEnd-output io [] [] h e = absurd (ground (arith, e))
HasEnd-output io [] (c ∷ cs) h e = absurd (ground (arith, e))
HasEnd-output io (w ∷ ws) [] h e = inl (inr (ground (arith, e, h)))
HasEnd-output io (w ∷ ws) (c ∷ cs) h e = inr (HasEnd-output io ws cs h (ground (arith, e)))

abbrev wrapper_of : ℕ → Category → ModuleWrapper
wrapper_of id category = record { id = id; category = category }

-- A request that the request manager made and whose builder runs, with a processing module to be found
-- and managers that tell the category that their modules stand for: the builder gives it the modules of
-- the port and the parser in front of itself, and behind itself one module for each category behind it
-- that has a module, and for no other, in strictly ascending order of the categories, then the module for
-- the output and that of the port. On this chain `setProcessingModule` never reads through a null pointer.
pub find_modules-new_request :
    (fs : FileSystem) (conf : Modules) (now : ℕ) (name : Bytes) (io : Category) (r : Request)
    (w : ModuleWrapper)
    → r.modules ≡ (new_request io now).modules
    → r.current ≡ some 2
    → is_input_output io ≡ true
    → module_for fs conf now Category.processing ≡ some name
    → ((c : Category) (n : Bytes) → module_for fs conf now c ≡ some n → conf.category_of n ≡ c)
    → (s : Request) × (k : ModuleList) × (find_modules fs conf now r ≡ some s)
      × (categories s.modules.nodes
          ≡ io ∷ Category.post_input ∷ Category.undefined ∷ with_module fs conf now chain_order
            ++ Category.pre_output ∷ io ∷ [])
      × Ascends 3 (with_module fs conf now chain_order)
      × (set_processing_module w s.modules ≡ some k)
unfolding new_request append_modules append_module append init Chain.empty
find_modules-new_request fs conf now name io r w lies runs port h told =
    let (s, ws, e, f, g) =
      find_modules-ordered fs conf now name (wrapper_of 2 Category.undefined)
        (wrapper_of 0 io ∷ wrapper_of 1 Category.post_input ∷ [])
        (wrapper_of 3 Category.pre_output ∷ wrapper_of 4 io ∷ []) r h
        (ground arith, (ground arith, tt)) runs (ap (λ (l : ModuleList). l.nodes) lies) in
    let order : categories ws ≡ picks fs conf now chain_order [] ++ Category.pre_output ∷ io ∷ [] =
      g ∙ picks-append fs conf now chain_order _ in
    let (k, p, q, u) =
      set_processing_module-Replaces w (wrapper_of 0 io)
        (wrapper_of 1 Category.post_input ∷ wrapper_of 2 Category.undefined ∷ ws) s.modules f
        (inr (
          inr (
            HasEnd-output io ws _ port (
              order
              ∙ sym (
                  append_assoc (picks fs conf now chain_order []) (Category.pre_output ∷ [])
                    (io ∷ [])))))) in
    let same = picks-with_module fs conf now chain_order told in
    (
      s,
      k,
      e,
      ap categories f
          ∙ ap (λ cs. io ∷ Category.post_input ∷ Category.undefined ∷ cs) order
          ∙ ap
              (λ cs.
                io ∷ Category.post_input ∷ Category.undefined ∷ cs ++ Category.pre_output ∷ io ∷ [])
              same,
      subst (Ascends 3) same (picks-Ascends fs conf now 3 chain_order told chain_order-Ascends),
      p,
    )
