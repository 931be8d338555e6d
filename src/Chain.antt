-- ===== src/Chain.antt =====
-- server/core/ModuleList.cpp and ModuleWrapper.cpp: the chain of modules that a request runs
-- through. The `_next` links are the order of the list; a wrapper is named by its number.
pub mod Processing
use zhttpd.Base.{ℕ, Bool, true, false, List, [], ◌∷◌, ◌++◌, Option, none, some, ◌==◌, if◌then◌else◌}
use zhttpd.Api.{Category}
use zhttpd.Api

-- `ModuleWrapper`, with what its manager's `getCategory` says.
pub record ModuleWrapper : Type 0 where
  pub id : ℕ
  pub category : Category

-- `_head` and the wrappers behind it, and `_tail`.
pub record ModuleList : Type 0 where
  pub nodes : List ModuleWrapper
  pub tail : Option ModuleWrapper

unfoldable pub empty : ModuleList
empty = record { nodes = []; tail = none }

-- `append`.
unfoldable pub append : ModuleWrapper → ModuleList → ModuleList
append w l = elim l.tail [
  | none ↦ record { nodes = w ∷ []; tail = some w }
  | some _ ↦ record { nodes = l.nodes ++ w ∷ []; tail = some w }
]

abbrev pub is_processing : Category → Bool
is_processing Category.processing = true
is_processing _ = false

abbrev pub is_input_output : Category → Bool
is_input_output Category.input_output = true
is_input_output _ = false

-- How the walk of `setProcessingModule` ends: at a null head, at a null `next` that the code reads
-- through, or with the new chain.
pub data Placed : Type 0 where
  missing crashed : Placed
  placed : List ModuleWrapper → Placed

abbrev behind : ModuleWrapper → Placed → Placed
behind node (placed ws) = placed (node ∷ ws)
behind node crashed = crashed
behind node missing = crashed

-- `setProcessingModule` from a node on. The replaced wrapper is deleted.
unfoldable pub place : ModuleWrapper → List ModuleWrapper → Placed
place w [] = missing
place w (node ∷ []) = crashed
place w (node ∷ next ∷ rest) =
    if is_processing next.category
    then placed (node ∷ w ∷ rest)
    else if is_input_output next.category
    then placed (node ∷ w ∷ next ∷ rest)
    else behind node (place w (next ∷ rest))

-- `setProcessingModule`: `none` where the walk crashes or gives a null pointer to a caller that
-- reads through it. `_tail` is left as it was.
unfoldable pub set_processing_module : ModuleWrapper → ModuleList → Option ModuleList
set_processing_module w l = elim (place w l.nodes) [
  | placed ws ↦ some (record l { nodes = ws })
  | _ ↦ none
]

-- `head`.
unfoldable pub head : ModuleList → Option ModuleWrapper
head l = elim l.nodes [ [] ↦ none | node ∷ _ ↦ some node ]

-- `isInResponsePart` from a node on; `none` is `assert(false)`.
unfoldable pub in_response : ℕ → List ModuleWrapper → Option Bool
in_response id [] = none
in_response id (node ∷ rest) =
    if is_processing node.category
    then some true
    else if node.id == id
    then some false
    else in_response id rest

-- `isInResponsePart`.
unfoldable pub is_in_response_part : ℕ → ModuleList → Option Bool
unfolding in_response
is_in_response_part id l = in_response id l.nodes

-- What stands behind a wrapper: `none` if the wrapper is not in the chain, as after its deletion,
-- and `some none` where its `getNext()` is null.
unfoldable pub next_in : ℕ → List ModuleWrapper → Option (Option ModuleWrapper)
next_in id [] = none
next_in id (node ∷ rest) =
    if node.id == id
    then (elim rest [ [] ↦ some none | next ∷ _ ↦ some (some next) ])
    else next_in id rest

-- `Request::insertAfter`: a new wrapper behind the named one; `none` if that one is not there.
unfoldable pub insert_after : ℕ → ModuleWrapper → List ModuleWrapper → Option (List ModuleWrapper)
insert_after id w [] = none
insert_after id w (node ∷ rest) =
    if node.id == id
    then some (node ∷ w ∷ rest)
    else (elim (insert_after id w rest) [ none ↦ none | some ws ↦ some (node ∷ ws) ])
