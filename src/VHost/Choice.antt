-- ===== src/VHost/Choice.antt =====
-- server/configuration/VHost.cpp: the virtual host that `match` gives, and what it asks of a request.
use Prim.{absurd}
use mathlib.Core.Path.{fun_ext}
use zhttpd.Base.{
  ℕ, ◌==◌, Bool, true, false, not, ◌&&◌, Bytes, codes, eq_bytes_iff, List, [], ◌∷◌, Option, none,
  some, if◌then◌else◌, ◌≡◌, refl, ap, sym, ◌∙◌, arith, inl, inr, Option-cases,
}
use zhttpd.Headers.{HeaderMap, get_header, lookup, insert, lookup-insert, header_value}
use zhttpd.VHost.{
  Guideline, header_guideline, host_guideline, listen_guideline, url_guideline, host_name, url_path,
  unless, VHost, vhost, VHosts, no_child, child, holds, all_hold, match, match_child, or_self,
}

-- The values of the headers, a missing one being empty.
abbrev pub values : HeaderMap → Bytes → Bytes
values m key = header_value (lookup key m)

get_header_from :
    (key : Bytes) (m : HeaderMap) (o : Option Bytes)
    → lookup key m ≡ o
    → get_header key m
      ≡ (elim o as (λ o. Bytes × HeaderMap) [ none ↦ ([], insert key [] m) | some v ↦ (v, m) ])
unfolding get_header
get_header_from key m o e =
    ap
      (λ (o : Option Bytes). elim o as (λ o. Bytes × HeaderMap) [
        | none ↦ ([], insert key [] m)
        | some v ↦ (v, m)
      ])
      e

get_header-value : (key : Bytes) (m : HeaderMap) → (get_header key m).0 ≡ values m key
get_header-value key m = elim (Option-cases (lookup key m)) [
  | inl e ↦
      ap (λ (r : Bytes × HeaderMap). r.0) (get_header_from key m none e) ∙ sym (ap header_value e)
  | inr (v, e) ↦
      ap (λ (r : Bytes × HeaderMap). r.0) (get_header_from key m (some v) e)
      ∙ sym (ap header_value e)
]

get_header-values : (key : Bytes) (m : HeaderMap) → values (get_header key m).1 ≡ values m
get_header-values key m = elim (Option-cases (lookup key m)) [
  | inl e ↦
      ap (λ (r : Bytes × HeaderMap). values r.1) (get_header_from key m none e)
      ∙ fun_ext (λ j. ground (arith, lookup-insert key j [] m, eq_bytes_iff j key))
  | inr (v, e) ↦ ap (λ (r : Bytes × HeaderMap). values r.1) (get_header_from key m (some v) e)
]

-- A test, and what follows it if it holds.
and_then :
    (r : Bool × HeaderMap) (k : HeaderMap → Bool × HeaderMap) (b c : Bool) (f : Bytes → Bytes)
    → r.0 ≡ b
    → values r.1 ≡ f
    → ((k r.1).0 ≡ c) × (values (k r.1).1 ≡ f)
    → ((if r.0 then k r.1 else (false, r.1)).0 ≡ (b && c))
      × (values (if r.0 then k r.1 else (false, r.1)).1 ≡ f)
and_then (true, m) k b c f e d h = (h.0 ∙ ground arith, h.1)
and_then (false, m) k b c f e d h = (ground arith, d)

-- The end of `match` with both loops done, and the turn of its loop over the children.
abbrev match_end : VHost → Bool × HeaderMap → Option VHost × HeaderMap → Option VHost × HeaderMap
match_end v r s = if r.0 then (or_self v s.0, s.1) else (none, r.1)

abbrev match_turn :
    Option VHost × HeaderMap → (HeaderMap → Option VHost × HeaderMap) → Option VHost × HeaderMap
match_turn r k = elim r.0 [ none ↦ k r.1 | some c ↦ (some c, r.1) ]

-- The ends of `match`, after the guidelines and the loop over the children.
matched :
    (v w : VHost) (r : Bool × HeaderMap) (s : Option VHost × HeaderMap) (b : Bool)
    (f : Bytes → Bytes)
    → r.0 ≡ b
    → values r.1 ≡ f
    → (or_self v s.0 ≡ some w) × (values s.1 ≡ f)
    → ((match_end v r s).0 ≡ (if b then some w else none)) × (values (match_end v r s).1 ≡ f)
matched v w (true, m) s b f e d h = (h.0 ∙ ground (arith, e), h.1)
matched v w (false, m) s b f e d h = (ground (arith, e), d)

-- A child, and those that follow it if it does not match.
match_next :
    (v w x : VHost) (r : Option VHost × HeaderMap) (k : HeaderMap → Option VHost × HeaderMap)
    (b : Bool) (f : Bytes → Bytes)
    → r.0 ≡ (if b then some w else none)
    → values r.1 ≡ f
    → (or_self v (k r.1).0 ≡ some x) × (values (k r.1).1 ≡ f)
    → (or_self v (match_turn r k).0 ≡ some (if b then w else x)) × (values (match_turn r k).1 ≡ f)
match_next v w x (none, m) k true f e d h = absurd (ground (arith, e))
match_next v w x (none, m) k false f e d h = h
match_next v w x (some c, m) k true f e d h = (e, d)
match_next v w x (some c, m) k false f e d h = absurd (ground (arith, e))

module _ (regex : Bytes → Bytes → Bool) (query : Bytes) (port : ℕ) where
  -- What a guideline asks of the values of the headers, of the query and of the port.
  abbrev pub agrees : Guideline → (Bytes → Bytes) → Bool
  agrees (header_guideline key match deny) f = unless deny (regex match (f key))
  agrees (host_guideline match deny) f = unless deny (regex match (host_name (f (codes "Host"))))
  agrees (listen_guideline p deny) f = not (deny && (port == p))
  agrees (url_guideline match deny) f = unless deny (regex match (url_path query))

  abbrev pub all_agree : List Guideline → (Bytes → Bytes) → Bool
  all_agree [] f = true
  all_agree (g ∷ gs) f = agrees g f && all_agree gs f

  abbrev pub accepts : VHost → (Bytes → Bytes) → Bool
  accepts (vhost name root gs cs) f = all_agree gs f

  holds-agrees :
      (g : Guideline) (m : HeaderMap)
      → ((holds regex query port g m).0 ≡ agrees g (values m))
        × (values (holds regex query port g m).1 ≡ values m)
  unfolding holds
  holds-agrees (header_guideline key match deny) m =
      (ap (λ v. unless deny (regex match v)) (get_header-value key m), get_header-values key m)
  holds-agrees (host_guideline match deny) m = (
    ap (λ v. unless deny (regex match (host_name v))) (get_header-value (codes "Host") m),
    get_header-values (codes "Host") m,
  )
  holds-agrees (listen_guideline p deny) m = (ground arith, refl)
  holds-agrees (url_guideline match deny) m = (refl, refl)

  all_hold-all_agree :
      (gs : List Guideline) (m : HeaderMap)
      → ((all_hold regex query port gs m).0 ≡ all_agree gs (values m))
        × (values (all_hold regex query port gs m).1 ≡ values m)
  unfolding all_hold
  all_hold-all_agree [] m = (refl, refl)
  all_hold-all_agree (g ∷ gs) m =
      let h = holds-agrees g m in
      and_then (holds regex query port g m) (all_hold regex query port gs) _ _ (values m) h.0 h.1
        ((all_hold-all_agree gs _).0 ∙ ap (all_agree gs) h.1, (all_hold-all_agree gs _).1 ∙ h.1)

  unfoldable mutual
    -- The virtual host that is to serve a request which this one accepts: of the first child that
    -- accepts it the one that is to serve it there, or itself if no child does.
    pub chosen : VHost → (Bytes → Bytes) → VHost
    chosen (vhost name root gs cs) f = chosen_child (vhost name root gs cs) cs f

    chosen_child : VHost → VHosts → (Bytes → Bytes) → VHost
    chosen_child v no_child f = v
    chosen_child v (child c cs) f = if accepts c f then chosen c f else chosen_child v cs f

  mutual
    unfolding match match_child chosen

    chosen_lem :
        (v : VHost) (m : HeaderMap)
        → ((match regex query port v m).0
            ≡ (if accepts v (values m) then some (chosen v (values m)) else none))
          × (values (match regex query port v m).1 ≡ values m)
    chosen_lem (vhost name root gs cs) m =
        let h = all_hold-all_agree gs m in
        matched (vhost name root gs cs) _ (all_hold regex query port gs m)
          (match_child regex query port cs (all_hold regex query port gs m).1) _ (values m) h.0 h.1
          (
            (chosen_child_lem (vhost name root gs cs) cs (all_hold regex query port gs m).1).0
                ∙ ap (λ f. some (chosen_child (vhost name root gs cs) cs f)) h.1,
            (chosen_child_lem (vhost name root gs cs) cs (all_hold regex query port gs m).1).1
                ∙ h.1,
          )

    chosen_child_lem :
        (v : VHost) (cs : VHosts) (m : HeaderMap)
        → (or_self v (match_child regex query port cs m).0 ≡ some (chosen_child v cs (values m)))
          × (values (match_child regex query port cs m).1 ≡ values m)
    chosen_child_lem v no_child m = (refl, refl)
    chosen_child_lem v (child c cs) m =
        let h = chosen_lem c m in
        match_next v (chosen c (values m)) (chosen_child v cs (values m))
          (match regex query port c m) (match_child regex query port cs) (accepts c (values m))
          (values m) h.0 h.1
          (
            (chosen_child_lem v cs (match regex query port c m).1).0
                ∙ ap (λ f. some (chosen_child v cs f)) h.1,
            (chosen_child_lem v cs (match regex query port c m).1).1 ∙ h.1,
          )

  -- The match of a virtual host gives the one that is to serve the request, by the values of the
  -- headers, the query and the port, if it accepts the request, and else none; no header changes its
  -- value.
  pub match-chosen :
      (v : VHost) (m : HeaderMap)
      → ((match regex query port v m).0
          ≡ (if accepts v (values m) then some (chosen v (values m)) else none))
        × (values (match regex query port v m).1 ≡ values m)
  match-chosen = chosen_lem
