-- ===== src/Builder/Order.antt =====
-- server/modules/Builder/Builder.cpp: the order of the modules in the chain that it builds.
use Prim.{absurd}
use zhttpd.Base.{
  ℕ, suc, true, Bytes, List, [], ◌∷◌, ◌++◌, Option, none, some, map, ==_iff, ◌≡◌, ◌≢◌, refl, ap,
  ◌∙◌, arith, inl, inr, Bool-cases, ◌>>=◌,
}
use zhttpd.Api.{Category}
use zhttpd.Chain.{ModuleWrapper, insert_after, is_processing}
use zhttpd.Chain.Processing.{Avoids}
use zhttpd.Request.{Request, insert_module}
use zhttpd.Builder.{
  FileSystem, Modules, module_for, add_found, add_module, add_modules, build_order, find_modules,
}

insert_after-append :
    (w n : ModuleWrapper) (before after : List ModuleWrapper)
    → Avoids w.id before
    → insert_after w.id n (before ++ w ∷ after) ≡ some (before ++ w ∷ n ∷ after)
unfolding insert_after
insert_after-append w n [] after h = ground (arith, ==_iff w.id w.id)
insert_after-append w n (v ∷ before) after (g, h) =
    ground (arith, ==_iff v.id w.id, insert_after-append w n before after h)

-- The request runs the module of a wrapper, which stands between those before it and those behind.
record Stands (w : ModuleWrapper) (before after : List ModuleWrapper) (r : Request) : Type 0 where
  runs : r.current ≡ some w.id
  lies : r.modules.nodes ≡ before ++ w ∷ after

abbrev pub categories : List ModuleWrapper → List Category
categories = map (λ (v : ModuleWrapper). v.category)

abbrev with_nodes : Request → List ModuleWrapper → Request
with_nodes r ws = record r {
  modules = let l = r.modules in record l { nodes = ws };
  fresh = suc r.fresh;
}

module _ (w : ModuleWrapper) (before : List ModuleWrapper) (alone : Avoids w.id before) where
  insert_module-Stands :
      (c : Category) (after : List ModuleWrapper) (r : Request)
      → Stands w before after r
      → (s : Request) × (n : ModuleWrapper) × (insert_module c r ≡ some s)
        × (n.category ≡ c)
        × Stands w before (n ∷ after) s
  unfolding insert_module
  insert_module-Stands c after r t =
      let n : ModuleWrapper = record { id = r.fresh; category = c } in
      (
        with_nodes r (before ++ w ∷ n ∷ after),
        n,
        ap
              (λ (o : Option ℕ). o >>= (λ (id : ℕ).
                insert_after id n r.modules.nodes
                >>= (λ (ws : List ModuleWrapper). some (with_nodes r ws))))
              t.runs
            ∙ ap
                (λ (o : Option (List ModuleWrapper)).
                  o >>= (λ (ws : List ModuleWrapper). some (with_nodes r ws)))
                (ap (insert_after w.id n) t.lies ∙ insert_after-append w n before after alone),
        refl,
        record { runs = t.runs; lies = refl },
      )

module _ (fs : FileSystem) (conf : Modules) (now : ℕ) where
  -- The category of the module that is put into the chain for a category, if there is one.
  abbrev pub picked : Option Bytes → List Category
  picked none = []
  picked (some n) = conf.category_of n ∷ []

  -- The modules for some categories, in their order, in front of the rest of a chain.
  abbrev pub picks : List Category → List Category → List Category
  picks [] rest = rest
  picks (c ∷ cs) rest = picked (module_for fs conf now c) ++ picks cs rest

  -- Those that are put in front of the rest one after the other.
  abbrev stacked : List Category → List Category → List Category
  stacked [] rest = rest
  stacked (c ∷ cs) rest = stacked cs (picked (module_for fs conf now c) ++ rest)

  -- A processing module is found, if one is looked for.
  abbrev pub IsServed : Category → Type 0
  IsServed c = is_processing c ≡ true → module_for fs conf now c ≢ none

  module _ (w : ModuleWrapper) (before : List ModuleWrapper) (alone : Avoids w.id before) where
    add_found-Stands :
        (c : Category) (o : Option Bytes) (after : List ModuleWrapper) (r : Request)
        → (is_processing c ≡ true → o ≢ none)
        → Stands w before after r
        → (s : Request) × (ws : List ModuleWrapper) × (add_found fs conf now c o r ≡ some s)
          × (categories ws ≡ picked o ++ categories after)
          × Stands w before ws s
    unfolding add_found
    add_found-Stands c (some n) after r h t =
        let (s, v, e, f, u) = insert_module-Stands w before alone (conf.category_of n) after r t in
        (s, v ∷ after, e, ap (λ c. c ∷ categories after) f, u)
    add_found-Stands c none after r h t = elim (Bool-cases (is_processing c)) [
      | inl e ↦ absurd (h e refl)
      | inr e ↦ (r, after, ground (arith, e), refl, t)
    ]

    -- The calls of `_addModule`, each of which puts its module in front of the others' modules.
    add_modules-Stands :
        (cs : List Category) (after : List ModuleWrapper) (r : Request)
        → ((c : Category) → IsServed c)
        → Stands w before after r
        → (s : Request) × (ws : List ModuleWrapper) × (add_modules fs conf now cs r ≡ some s)
          × (categories ws ≡ stacked cs (categories after))
          × Stands w before ws s
    unfolding add_modules add_module
    add_modules-Stands [] after r h t = (r, after, refl, refl, t)
    add_modules-Stands (c ∷ cs) after r h t =
        let (s, vs, e, f, u) = add_found-Stands c (module_for fs conf now c) after r (h c) t in
        let (q, ws, d, g, z) = add_modules-Stands cs vs s h u in
        (
          q,
          ws,
          ap (λ (o : Option Request). o >>= add_modules fs conf now cs) e ∙ d,
          g ∙ ap (stacked cs) f,
          z,
        )

-- The categories of modules behind the builder, in the order of their values.
abbrev pub chain_order : List Category
chain_order =
    Category.pre_request_filter ∷ Category.uncompress ∷ Category.post_request_filter
    ∷ Category.pre_processing ∷ Category.processing ∷ Category.post_processing
    ∷ Category.pre_response_filter ∷ Category.compress ∷ Category.post_response_filter
    ∷ Category.pre_output ∷ []

module _ (fs : FileSystem) (conf : Modules) (now : ℕ) where
  served :
      (name : Bytes)
      → module_for fs conf now Category.processing ≡ some name
      → (c : Category) → IsServed fs conf now c
  served name h Category.processing p g = absurd (ground (arith, h, g))
  served name h _ p g = absurd (ground (arith, p))

-- If a processing module is found, the builder puts into the chain, right behind itself and in the order
-- of the categories, one module for each category that has one, and no other module moves.
pub find_modules-ordered :
    (fs : FileSystem) (conf : Modules) (now : ℕ) (name : Bytes) (w : ModuleWrapper)
    (before after : List ModuleWrapper) (r : Request)
    → module_for fs conf now Category.processing ≡ some name
    → Avoids w.id before
    → r.current ≡ some w.id
    → r.modules.nodes ≡ before ++ w ∷ after
    → (s : Request) × (ws : List ModuleWrapper) × (find_modules fs conf now r ≡ some s)
      × (s.modules.nodes ≡ before ++ w ∷ ws)
      × (categories ws ≡ picks fs conf now chain_order (categories after))
unfolding find_modules
find_modules-ordered fs conf now name w before after r h alone e f =
    let (s, ws, d, g, t) =
      add_modules-Stands fs conf now w before alone build_order after r (served fs conf now name h)
        (record { runs = e; lies = f }) in
    (s, ws, d, t.lies, g)
