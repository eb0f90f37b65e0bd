-- ===== src/Base/Lists.antt =====
-- Lists measured by native numbers, and membership by recursion, which the tactics take apart.
use Prim.Native.Nat.{ℕ, suc, ◌+◌}
use mathlib.Core.Path.{◌≡◌, refl, ap}
use mathlib.Core.Logic.{◌≢◌, ◌⊎◌, inl, inr}
use mathlib.Core.List.{List, [], ◌∷◌, ◌++◌, map}
use native.Mathlib.Omega.{arith}
use trading_matcher.Base.Tests.{◌==◌, if◌then◌else◌}

module _ {ℓ} {A : Type ℓ} where
  abbrev pub length : List A → ℕ
  length [] = 0
  length (x ∷ xs) = suc (length xs)

  pub length-append : (xs ys : List A) → length (xs ++ ys) ≡ length xs + length ys
  length-append [] ys = omega arith
  length-append (x ∷ xs) ys = omega (arith, length-append xs ys)

pub length-map {ℓ ℓ'} :
    {A : Type ℓ} {B : Type ℓ'} (f : A → B) (xs : List A) → length (map f xs) ≡ length xs
length-map f [] = refl
length-map f (x ∷ xs) = ap suc (length-map f xs)

module _ {A : Type 0} where
  -- An occurrence of `a`.
  abbrev pub In : A → List A → Type 0
  In a [] = ⊥
  In a (x ∷ xs) = (x ≡ a) ⊎ In a xs

  -- No entry occurs twice.
  abbrev pub Distinct : List A → Type 0
  Distinct [] = Unit
  Distinct (x ∷ xs) = (¬ In x xs) × Distinct xs

  pub In-append : (a : A) (xs ys : List A) → In a (xs ++ ys) → In a xs ⊎ In a ys
  In-append a [] ys h = inr h
  In-append a (x ∷ xs) ys (inl e) = inl (inl e)
  In-append a (x ∷ xs) ys (inr h) = ground (arith, In-append a xs ys h)

  pub In-append_left : (a : A) (xs ys : List A) → In a xs → In a (xs ++ ys)
  In-append_left a [] ys h = absurd h
  In-append_left a (x ∷ xs) ys (inl e) = inl e
  In-append_left a (x ∷ xs) ys (inr h) = inr (In-append_left a xs ys h)

  pub In-append_right : (a : A) (xs ys : List A) → In a ys → In a (xs ++ ys)
  In-append_right a [] ys h = h
  In-append_right a (x ∷ xs) ys h = inr (In-append_right a xs ys h)

  -- An entry that does not occur may be added at the end.
  pub Distinct-push : (a : A) (xs : List A) → Distinct xs → ¬ In a xs → Distinct (xs ++ a ∷ [])
  Distinct-push a [] d n = (λ h. h, tt)
  Distinct-push a (x ∷ xs) d n =
      (λ h. ground (arith, In-append x xs (a ∷ []) h, d.0), Distinct-push a xs d.1 (λ h. n (inr h)))

-- The list with every occurrence of `a` taken out, the rest in order.
abbrev pub without : ℕ → List ℕ → List ℕ
without a [] = []
without a (x ∷ xs) = if x == a then without a xs else x ∷ without a xs

pub In-without : (q a : ℕ) (xs : List ℕ) → In q (without a xs) → In q xs × (q ≢ a)
In-without q a [] h = absurd h
In-without q a (x ∷ xs) h = ground (arith, In-without q a xs)

pub In-without_of_ne : (q a : ℕ) (xs : List ℕ) → In q xs → q ≢ a → In q (without a xs)
In-without_of_ne q a [] h n = absurd h
In-without_of_ne q a (x ∷ xs) h n = ground (arith, In-without_of_ne q a xs)

pub Distinct-without : (a : ℕ) (xs : List ℕ) → Distinct xs → Distinct (without a xs)
Distinct-without a [] d = tt
Distinct-without a (x ∷ xs) d = ground (arith, Distinct-without a xs d.1, In-without x a xs)

pub without-absent : (a : ℕ) (xs : List ℕ) → ¬ In a xs → without a xs ≡ xs
without-absent a [] n = refl
without-absent a (x ∷ xs) n = ground (arith, without-absent a xs)

pub length-without :
    (a : ℕ) (xs : List ℕ) → Distinct xs → In a xs → length xs ≡ suc (length (without a xs))
length-without a [] d h = absurd h
length-without a (x ∷ xs) d h = ground (arith, length-without a xs d.1, without-absent a xs)

-- To split on a computed list and keep the equation.
pub List-cases : (xs : List ℕ) → (xs ≡ []) ⊎ ((y : ℕ) × (ys : List ℕ) × (xs ≡ y ∷ ys))
List-cases [] = inl refl
List-cases (x ∷ xs) = inr (x, xs, refl)
