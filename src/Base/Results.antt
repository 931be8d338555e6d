-- ===== src/Base/Results.antt =====
-- Results that may be missing: `none` for a failed assertion or a fault.
use Prim.{tt}
use mathlib.Core.Path.{◌≡◌, refl, sym, ap, ◌∙◌, subst}
use mathlib.Core.Bool.{Bool, true, false}
use mathlib.Core.Option.{Option, none, some}
use zhttpd.Base.Tests.{if◌then◌else◌}

infixl 5 ◌>>=◌
abbrev pub ◌>>=◌ : {A B : Type 0} → Option A → (A → Option B) → Option B
none >>= f = none
some a >>= f = f a

pub bind-eq-some :
    {A B : Type 0} (m : Option A) (f : A → Option B) {b : B}
    → m >>= f ≡ some b
    → (a : A) × (m ≡ some a) × (f a ≡ some b)
bind-eq-some none f h = cc
bind-eq-some (some a) f h = (a, refl, h)

-- A property of the result, where there is one.
abbrev pub OnSome {ℓ} : {A : Type 0} → (A → Type ℓ) → Option A → Type ℓ
OnSome P none = Unit
OnSome P (some a) = P a

pub OnSome-bind {ℓ κ} :
    {A B : Type 0} (Q : A → Type κ) (P : B → Type ℓ) (m : Option A) (f : A → Option B)
    → OnSome Q m
    → ((a : A) → Q a → OnSome P (f a))
    → OnSome P (m >>= f)
OnSome-bind Q P none f q h = tt
OnSome-bind Q P (some a) f q h = h a q

pub OnSome-if {ℓ} :
    {A : Type 0} (P : A → Type ℓ) (b : Bool) (x y : Option A)
    → (b ≡ true → OnSome P x)
    → (b ≡ false → OnSome P y)
    → OnSome P (if b then x else y)
OnSome-if P true x y h g = h refl
OnSome-if P false x y h g = g refl

pub OnSome-map {ℓ κ} :
    {A : Type 0} (P : A → Type ℓ) (Q : A → Type κ) (m : Option A)
    → ((a : A) → P a → Q a)
    → OnSome P m
    → OnSome Q m
OnSome-map P Q none f h = tt
OnSome-map P Q (some a) f h = f a h

pub OnSome-always {ℓ} : {A : Type 0} (P : A → Type ℓ) (m : Option A) → ((a : A) → P a) → OnSome P m
OnSome-always P none h = tt
OnSome-always P (some a) h = h a

pub OnSome-eq {ℓ} :
    {A : Type 0} (P : A → Type ℓ) (m : Option A) (a : A) → m ≡ some a → OnSome P m → P a
OnSome-eq P m a e h = subst (OnSome P) e h

-- A result with a property.
abbrev pub Gives : {A : Type 0} → (A → Type 0) → Option A → Type 0
Gives {A = A} P o = (a : A) × ((o ≡ some a) × P a)

pub Gives-bind :
    {A B : Type 0} (Q : A → Type 0) (P : B → Type 0) (o : Option A) (f : A → Option B)
    → Gives Q o
    → ((a : A) → Q a → Gives P (f a))
    → Gives P (o >>= f)
Gives-bind Q P o f (a, (e, q)) h = ((h a q).0, (ap (λ m. m >>= f) e ∙ (h a q).1.0, (h a q).1.1))

pub Gives-map :
    {A : Type 0} (P Q : A → Type 0) (o : Option A) → Gives P o → ((a : A) → P a → Q a) → Gives Q o
Gives-map P Q o (a, (e, p)) h = (a, (e, h a p))

pub Gives-at : {A : Type 0} (P : A → Type 0) (o : Option A) (a : A) → o ≡ some a → Gives P o → P a
Gives-at P o a e (b, (f, p)) = OnSome-eq P (some b) a (sym f ∙ e) p
