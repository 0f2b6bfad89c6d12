-- ===== src/Base/Lists.antt =====
-- Lists measured by native numbers, the bind of `Option`, and an update of a map that is a
-- function.
use native.Mathlib.Omega.{arith}
use Prim.Native.Nat.{ℕ, zero, suc, ◌+◌, ◌<◌}
use mathlib.Core.Path.{◌≡◌, refl}
use mathlib.Core.Logic.{◌≢◌, ◌⊎◌}
use mathlib.Core.Option.{Option, none, some}
use mathlib.Core.List.{List, [], ◌∷◌, ◌++◌}
use mkrootfs.Base.Tests.{◌==◌, if◌then◌else◌}

module _ {ℓ} {A : Type ℓ} where
  abbrev pub length : List A → ℕ
  length [] = 0
  length (x ∷ xs) = suc (length xs)

infixl 5 ◌>>=◌
abbrev pub ◌>>=◌ {ℓ κ} : {A : Type ℓ} {B : Type κ} → Option A → (A → Option B) → Option B
none >>= f = none
some a >>= f = f a

-- The map `f` with the value `v` at `k`.
abbrev pub update {ℓ} : {A : Type ℓ} → (ℕ → A) → ℕ → A → ℕ → A
update f k v j = if j == k then v else f j

-- The computation gives a result, and the result satisfies `P`: total correctness.
pub data Returns {ℓ κ} {A : Type ℓ} (P : A → Type κ) : Option A → Type (ℓ ⊔ κ) where
  returned : {a : A} → P a → Returns P (some a)

pub Returns-bind {ℓ κ μ} :
    {A B : Type ℓ} {P : A → Type κ} {Q : B → Type μ} {m : Option A} {f : A → Option B}
    → Returns P m
    → ((a : A) → P a → Returns Q (f a))
    → Returns Q (m >>= f)
Returns-bind (returned {a} h) k = k a h

pub Returns-map {ℓ κ μ} :
    {A : Type ℓ} {P : A → Type κ} {Q : A → Type μ} {m : Option A}
    → Returns P m
    → ((a : A) → P a → Q a)
    → Returns Q m
Returns-map (returned {a} h) k = returned (k a h)

pub Returns-elim {ℓ κ} :
    {A : Type ℓ} {P : A → Type κ} {m : Option A} → Returns P m → (a : A) × (m ≡ some a) × P a
Returns-elim (returned {a} h) = (a, refl, h)

-- The library's functions, counted by native numbers.
module _ {ℓ} {A : Type ℓ} where
  abbrev pub take : ℕ → List A → List A
  take zero xs = []
  take (suc n) [] = []
  take (suc n) (x ∷ xs) = x ∷ take n xs

  abbrev pub drop : ℕ → List A → List A
  drop zero xs = xs
  drop (suc n) [] = []
  drop (suc n) (x ∷ xs) = drop n xs

  abbrev pub get_or : A → List A → ℕ → A
  get_or y [] n = y
  get_or y (x ∷ xs) zero = x
  get_or y (x ∷ xs) (suc n) = get_or y xs n

  pub length-append : (xs ys : List A) → length (xs ++ ys) ≡ length xs + length ys
  length-append [] ys = omega arith
  length-append (x ∷ xs) ys = omega (arith, length-append xs ys)

abbrev pub AllBelow : ℕ → List ℕ → Type 0
AllBelow k [] = Unit
AllBelow k (s ∷ l) = (s < k) × AllBelow k l

abbrev pub In : ℕ → List ℕ → Type 0
In s [] = ⊥
In s (t ∷ l) = (s ≡ t) ⊎ In s l

abbrev pub NotIn : ℕ → List ℕ → Type 0
NotIn s [] = Unit
NotIn s (t ∷ l) = (s ≢ t) × NotIn s l

-- No element stands twice.
abbrev pub AreDistinct : List ℕ → Type 0
AreDistinct [] = Unit
AreDistinct (s ∷ l) = NotIn s l × AreDistinct l
