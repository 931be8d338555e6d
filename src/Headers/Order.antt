-- ===== src/Headers/Order.antt =====
-- `std::map<std::string, std::string>`, as server/core/Request.hpp uses it for headers: its order.
use Prim.{tt}
use zhttpd.Base.{
  true, false, Bytes, eq_bytes, lt_bytes, eq_bytes_iff, [], ◌∷◌, ◌≡◌, refl, arith, All, Bool-cases,
  inl, inr,
}
use zhttpd.Headers.{HeaderMap, insert}

-- Keys ascend strictly.
abbrev pub IsSorted : HeaderMap → Type 0
IsSorted [] = Unit
IsSorted ((k, v) ∷ m) = All (λ e. lt_bytes k e.0 ≡ true) m × IsSorted m

pub lt_bytes_irrefl : (a : Bytes) → lt_bytes a a ≡ false
unfolding lt_bytes
lt_bytes_irrefl [] = refl
lt_bytes_irrefl (x ∷ a) = ground (arith, lt_bytes_irrefl a)

lt_bytes_trans : (a b c : Bytes) → lt_bytes a b ≡ true → lt_bytes b c ≡ true → lt_bytes a c ≡ true
unfolding lt_bytes
lt_bytes_trans [] [] c h g = cc
lt_bytes_trans [] (y ∷ b) [] h g = cc
lt_bytes_trans [] (y ∷ b) (z ∷ c) h g = refl
lt_bytes_trans (x ∷ a) [] c h g = cc
lt_bytes_trans (x ∷ a) (y ∷ b) [] h g = cc
lt_bytes_trans (x ∷ a) (y ∷ b) (z ∷ c) h g = ground (arith, lt_bytes_trans a b c)

lt_bytes_total : (a b : Bytes) → eq_bytes a b ≡ false → lt_bytes a b ≡ false → lt_bytes b a ≡ true
unfolding lt_bytes eq_bytes
lt_bytes_total [] [] e h = cc
lt_bytes_total [] (y ∷ b) e h = cc
lt_bytes_total (x ∷ a) [] e h = refl
lt_bytes_total (x ∷ a) (y ∷ b) e h = ground (arith, lt_bytes_total a b)

below_trans :
    (k j : Bytes) (m : HeaderMap)
    → lt_bytes k j ≡ true
    → All (λ e. lt_bytes j e.0 ≡ true) m
    → All (λ e. lt_bytes k e.0 ≡ true) m
below_trans k j [] h a = tt
below_trans k j ((i, v) ∷ m) h (hi, a) = (lt_bytes_trans k j i h hi, below_trans k j m h a)

below-insert :
    (k key val : Bytes) (m : HeaderMap)
    → lt_bytes k key ≡ true
    → All (λ e. lt_bytes k e.0 ≡ true) m
    → All (λ e. lt_bytes k e.0 ≡ true) (insert key val m)
unfolding insert
below-insert k key val [] h a = (h, tt)
below-insert k key val ((j, v) ∷ m) h (hj, a) = elim (Bool-cases (eq_bytes key j)) [
  | inl e ↦ simp e (h, a)
  | inr e ↦ elim (Bool-cases (lt_bytes key j)) [
    | inl f ↦ simp (e, f) (h, (hj, a))
    | inr f ↦ simp (e, f) (hj, below-insert k key val m h a)
  ]
]

-- A write keeps the keys of a map in ascending order.
pub insert-IsSorted : (key val : Bytes) (m : HeaderMap) → IsSorted m → IsSorted (insert key val m)
unfolding insert
insert-IsSorted key val [] h = (tt, tt)
insert-IsSorted key val ((k, v) ∷ m) (below, h) = elim (Bool-cases (eq_bytes key k)) [
  | inl e ↦ simp e (rw ((eq_bytes_iff key k).0 e) below, h)
  | inr e ↦ elim (Bool-cases (lt_bytes key k)) [
    | inl f ↦ simp (e, f) ((refl, below_trans key k m f below), (below, h))
    | inr f ↦
        simp (e, f)
          (below-insert k key val m (lt_bytes_total key k e f) below, insert-IsSorted key val m h)
  ]
]
