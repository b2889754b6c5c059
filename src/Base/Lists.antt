-- ===== src/Base/Lists.antt =====
-- Lists measured by native numbers, filtered by Boolean tests, and predicates over their items.
use Prim.Native.Nat.{ℕ, zero, suc, ◌+◌, ◌-◌, ◌≤◌, min}
use mathlib.Core.Bool.{Bool, true, false, ◌&&◌}
use mathlib.Core.List.{List, [], ◌∷◌, ◌++◌}
use mathlib.Core.Logic.{inl, inr}
use mathlib.Core.Option.{Option, none, some}
use mathlib.Core.Path.{◌≡◌, refl, ap}
use native.Mathlib.Omega.{arith}
use release_hub.Base.Tests.{if◌then◌else◌, Bool-cases}

module _ {ℓ} {A : Type ℓ} where
  abbrev pub length : List A → ℕ
  length [] = 0
  length (x ∷ xs) = suc (length xs)

  abbrev pub take : ℕ → List A → List A
  take zero xs = []
  take (suc n) [] = []
  take (suc n) (x ∷ xs) = x ∷ take n xs

  abbrev pub drop : ℕ → List A → List A
  drop zero xs = xs
  drop (suc n) [] = []
  drop (suc n) (x ∷ xs) = drop n xs

  abbrev pub head? : List A → Option A
  head? [] = none
  head? (x ∷ xs) = some x

  pub length-append : (xs ys : List A) → length (xs ++ ys) ≡ length xs + length ys
  length-append [] ys = omega arith
  length-append (x ∷ xs) ys = omega (arith, length-append xs ys)

  pub length-take : (n : ℕ) (xs : List A) → length (take n xs) ≡ min n (length xs)
  length-take zero xs = omega arith
  length-take (suc n) [] = omega arith
  length-take (suc n) (x ∷ xs) = omega (arith, length-take n xs)

  pub length-drop : (n : ℕ) (xs : List A) → length (drop n xs) ≡ length xs - n
  length-drop zero xs = omega arith
  length-drop (suc n) [] = omega arith
  length-drop (suc n) (x ∷ xs) = omega (arith, length-drop n xs)

  -- The items that pass a test, in order.
  unfoldable pub keep_if : (A → Bool) → List A → List A
  keep_if p [] = []
  keep_if p (x ∷ xs) = let rest = keep_if p xs in if p x then x ∷ rest else rest

  -- The first item that passes a test.
  unfoldable pub find_first : (A → Bool) → List A → Option A
  find_first p [] = none
  find_first p (x ∷ xs) = let rest = find_first p xs in if p x then some x else rest

  unfoldable pub any_of : (A → Bool) → List A → Bool
  any_of p [] = false
  any_of p (x ∷ xs) = let rest = any_of p xs in if p x then true else rest

module _ {ℓ κ} {A : Type ℓ} (P : A → Type κ) where
  abbrev pub All : List A → Type κ
  All [] = Unit
  All (x ∷ xs) = P x × All xs

  pub All-append : (xs ys : List A) → All xs → All ys → All (xs ++ ys)
  All-append [] ys hx hy = hy
  All-append (x ∷ xs) ys hx hy = (hx.0, All-append xs ys hx.1 hy)

  pub All-keep_if : (p : A → Bool) (xs : List A) → All xs → All (keep_if p xs)
  unfolding keep_if
  All-keep_if p [] h = tt
  All-keep_if p (x ∷ xs) (hx, h) = elim (Bool-cases (p x)) [
    | inl pass ↦ rw pass (hx, All-keep_if p xs h)
    | inr fail ↦ rw fail (All-keep_if p xs h)
  ]

module _ {ℓ} {A : Type ℓ} where
  pub length-keep_if-le : (p : A → Bool) (xs : List A) → length (keep_if p xs) ≤ length xs
  unfolding keep_if
  length-keep_if-le p [] = omega arith
  length-keep_if-le p (x ∷ xs) = ground (arith, length-keep_if-le p xs)

  pub keep_if-append :
      (p : A → Bool) (xs ys : List A) → keep_if p (xs ++ ys) ≡ keep_if p xs ++ keep_if p ys
  unfolding keep_if
  keep_if-append p [] ys = refl
  keep_if-append p (x ∷ xs) ys = ground (arith, keep_if-append p xs ys)

  -- Two filters make one, and commute.
  pub keep_if-keep_if :
      (p q : A → Bool) (xs : List A) → keep_if p (keep_if q xs) ≡ keep_if (λ x. q x && p x) xs
  unfolding keep_if
  keep_if-keep_if p q [] = refl
  keep_if-keep_if p q (x ∷ xs) = ground (arith, keep_if-keep_if p q xs)

  pub keep_if_comm :
      (p q : A → Bool) (xs : List A) → keep_if p (keep_if q xs) ≡ keep_if q (keep_if p xs)
  unfolding keep_if
  keep_if_comm p q [] = refl
  keep_if_comm p q (x ∷ xs) = ground (arith, keep_if_comm p q xs)

  -- A filter that every item passes changes nothing.
  pub keep_if-All : (p : A → Bool) (xs : List A) → All (λ x. p x ≡ true) xs → keep_if p xs ≡ xs
  unfolding keep_if
  keep_if-All p [] h = refl
  keep_if-All p (x ∷ xs) (hx, h) = rw hx (ap (◌∷◌ x) (keep_if-All p xs h))

  pub keep_if-none : (p : A → Bool) (xs : List A) → All (λ x. p x ≡ false) xs → keep_if p xs ≡ []
  unfolding keep_if
  keep_if-none p [] h = refl
  keep_if-none p (x ∷ xs) (hx, h) = rw hx (keep_if-none p xs h)
