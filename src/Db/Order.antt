-- ===== src/Db/Order.antt =====
-- `ORDER BY version_code DESC`: insertion sort by a number, largest first, and its laws.
use release_hub.Base.{
  ℕ, ◌≤◌, ◌<◌, Bool, true, false, List, [], ◌∷◌, ◌++◌, ◌≡◌, refl, ap, arith, inl, inr, leb, eqb,
  not, map, ◌∙◌, All, All-keep_if, append-nil, keep_if, Bool-cases, if◌then◌else◌, keep_if-All,
}

module _ {A : Type 0} (key : A → ℕ) where
  insert_desc : A → List A → List A
  insert_desc x [] = x ∷ []
  insert_desc x (y ∷ ys) =
      let later = y ∷ insert_desc x ys in if leb (key y) (key x) then x ∷ y ∷ ys else later

  unfoldable pub sort_desc : List A → List A
  unfolding insert_desc
  sort_desc [] = []
  sort_desc (x ∷ xs) = insert_desc x (sort_desc xs)

  abbrev pub IsDesc : List A → Type 0
  IsDesc [] = Unit
  IsDesc (x ∷ xs) = All (λ y. key y ≤ key x) xs × IsDesc xs

  -- No two items have the same number.
  abbrev pub IsStrictDesc : List A → Type 0
  IsStrictDesc [] = Unit
  IsStrictDesc (x ∷ xs) = All (λ y. key y < key x) xs × IsStrictDesc xs

  abbrev pub Distinct : List A → Type 0
  Distinct [] = Unit
  Distinct (x ∷ xs) = All (λ y. eqb (key y) (key x) ≡ false) xs × Distinct xs

module _ {A : Type 0} (key : A → ℕ) where
  All-weaken : {m n : ℕ} (xs : List A) → All (λ y. key y ≤ m) xs → m ≤ n → All (λ y. key y ≤ n) xs
  All-weaken [] h le = tt
  All-weaken (x ∷ xs) (hx, h) le = (omega arith, All-weaken xs h le)

  insert_desc-front :
      (x : A) (ys : List A) → All (λ y. key y ≤ key x) ys → insert_desc key x ys ≡ x ∷ ys
  unfolding insert_desc
  insert_desc-front x [] h = refl
  insert_desc-front x (y ∷ ys) (hy, h) = ground arith

  insert_desc-All :
      (P : A → Type 0) (x : A) (ys : List A) → P x → All P ys → All P (insert_desc key x ys)
  unfolding insert_desc
  insert_desc-All P x [] px h = (px, tt)
  insert_desc-All P x (y ∷ ys) px (py, h) = elim (Bool-cases (leb (key y) (key x))) [
    | inl front ↦ rw front (px, (py, h))
    | inr later ↦ rw later (py, insert_desc-All P x ys px h)
  ]

  pub sort_desc-All : (P : A → Type 0) (xs : List A) → All P xs → All P (sort_desc key xs)
  unfolding sort_desc
  sort_desc-All P [] h = tt
  sort_desc-All P (x ∷ xs) (px, h) =
      insert_desc-All P x (sort_desc key xs) px (sort_desc-All P xs h)

  insert_desc-IsDesc : (x : A) (ys : List A) → IsDesc key ys → IsDesc key (insert_desc key x ys)
  unfolding insert_desc
  insert_desc-IsDesc x [] h = (tt, tt)
  insert_desc-IsDesc x (y ∷ ys) (hy, h) = elim (Bool-cases (leb (key y) (key x))) [
    | inl front ↦
        rw front (let le : key y ≤ key x = ground arith in ((le, All-weaken ys hy le), (hy, h)))
    | inr later ↦
        rw later
          (insert_desc-All (λ z. key z ≤ key y) x ys (ground arith) hy, insert_desc-IsDesc x ys h)
  ]

  pub sort_desc-IsDesc : (xs : List A) → IsDesc key (sort_desc key xs)
  unfolding sort_desc
  sort_desc-IsDesc [] = tt
  sort_desc-IsDesc (x ∷ xs) = insert_desc-IsDesc x (sort_desc key xs) (sort_desc-IsDesc xs)

  keep_if-insert_desc :
      (p : A → Bool) (x : A) (ys : List A)
      → IsDesc key ys
      → keep_if p (insert_desc key x ys)
        ≡ (if p x then insert_desc key x (keep_if p ys) else keep_if p ys)
  unfolding insert_desc keep_if
  keep_if-insert_desc p x [] h = ground arith
  keep_if-insert_desc p x (y ∷ ys) (hy, h) = elim (Bool-cases (leb (key y) (key x))) [
    | inl front ↦
        let le : key y ≤ key x = ground arith in
        let below : All (λ z. key z ≤ key x) (keep_if p (y ∷ ys)) =
          All-keep_if (λ z. key z ≤ key x) p (y ∷ ys) (le, All-weaken ys hy le) in
        ground (arith, insert_desc-front x (keep_if p (y ∷ ys)) below)
    | inr later ↦ ground (arith, keep_if-insert_desc p x ys h)
  ]

  -- A filter under the order is the order of what is filtered: WHERE before or after ORDER BY.
  pub keep_if-sort_desc :
      (p : A → Bool) (xs : List A) → keep_if p (sort_desc key xs) ≡ sort_desc key (keep_if p xs)
  unfolding sort_desc keep_if
  keep_if-sort_desc p [] = refl
  keep_if-sort_desc p (x ∷ xs) = ground (
    arith,
    keep_if-insert_desc p x (sort_desc key xs) (sort_desc-IsDesc xs),
    keep_if-sort_desc p xs,
  )

  All-other :
      (x : A) (ys : List A)
      → All (λ y. key y ≤ key x) ys
      → All (λ y. eqb (key y) (key x) ≡ false) ys
      → All (λ y. key y < key x) ys
  All-other x [] h k = tt
  All-other x (y ∷ ys) (hy, h) (ky, k) = (ground arith, All-other x ys h k)

  strict_of_Distinct : (xs : List A) → IsDesc key xs → Distinct key xs → IsStrictDesc key xs
  strict_of_Distinct [] h k = tt
  strict_of_Distinct (x ∷ xs) (hx, h) (kx, k) = (All-other x xs hx kx, strict_of_Distinct xs h k)

  insert_desc-Distinct :
      (x : A) (ys : List A)
      → All (λ y. eqb (key y) (key x) ≡ false) ys
      → Distinct key ys
      → Distinct key (insert_desc key x ys)
  unfolding insert_desc
  insert_desc-Distinct x [] h k = (tt, tt)
  insert_desc-Distinct x (y ∷ ys) (hy, h) (ky, k) = elim (Bool-cases (leb (key y) (key x))) [
    | inl front ↦ rw front ((hy, h), (ky, k))
    | inr later ↦ rw later (
      insert_desc-All (λ z. eqb (key z) (key y) ≡ false) x ys (ground arith) ky,
      insert_desc-Distinct x ys h k,
    )
  ]

  pub sort_desc-Distinct : (xs : List A) → Distinct key xs → Distinct key (sort_desc key xs)
  unfolding sort_desc
  sort_desc-Distinct [] h = tt
  sort_desc-Distinct (x ∷ xs) (hx, h) =
      insert_desc-Distinct x (sort_desc key xs)
        (sort_desc-All (λ y. eqb (key y) (key x) ≡ false) xs hx) (sort_desc-Distinct xs h)

  pub sort_desc-IsStrictDesc : (xs : List A) → Distinct key xs → IsStrictDesc key (sort_desc key xs)
  sort_desc-IsStrictDesc xs h =
      strict_of_Distinct (sort_desc key xs) (sort_desc-IsDesc xs) (sort_desc-Distinct xs h)

  pub keep_if-Distinct :
      (p : A → Bool) (xs : List A) → Distinct key xs → Distinct key (keep_if p xs)
  unfolding keep_if
  keep_if-Distinct p [] h = tt
  keep_if-Distinct p (x ∷ xs) (hx, h) = elim (Bool-cases (p x)) [
    | inl pass ↦
        rw pass (All-keep_if (λ y. eqb (key y) (key x) ≡ false) p xs hx, keep_if-Distinct p xs h)
    | inr fail ↦ rw fail (keep_if-Distinct p xs h)
  ]

  -- An item above all others stands first.
  pub sort_desc-append_max :
      (xs : List A) (x : A)
      → All (λ y. key y < key x) xs
      → sort_desc key (xs ++ x ∷ []) ≡ x ∷ sort_desc key xs
  unfolding sort_desc
  sort_desc-append_max [] x h = unfold insert_desc in refl
  sort_desc-append_max (y ∷ ys) x (hy, h) =
      rw (sort_desc-append_max ys x h) (behind y x (sort_desc key ys) hy)
    where
      behind :
          (y x : A) (zs : List A)
          → key y < key x
          → insert_desc key y (x ∷ zs) ≡ x ∷ insert_desc key y zs
      behind y x zs lt = unfold insert_desc in ground arith

-- The items of `xs` whose number is not that of an item of `gone`.
module _ {A : Type 0} (key : A → ℕ) where
  abbrev pub without_key : ℕ → List A → List A
  without_key n = keep_if (λ x. not (eqb (key x) n))

  unfoldable pub without_all : List A → List A → List A
  without_all [] xs = xs
  without_all (g ∷ gone) xs = without_all gone (without_key (key g) xs)

  apart : (m : ℕ) (xs : List A) → All (λ y. key y < m) xs → without_key m xs ≡ xs
  apart m xs h = keep_if-All (λ x. not (eqb (key x) m)) xs (differ xs h)
    where
      differ : (zs : List A) → All (λ y. key y < m) zs → All (λ x. not (eqb (key x) m) ≡ true) zs
      differ [] k = tt
      differ (z ∷ zs) (kz, k) = (ground arith, differ zs k)

  All-middle :
      (P : A → Type 0) (front : List A) (b : A) (back : List A) → All P (front ++ b ∷ back) → P b
  All-middle P [] b back h = h.0
  All-middle P (f ∷ front) b back h = All-middle P front b back h.1

  same_key : (n : ℕ) → not (eqb n n) ≡ false
  same_key n = ground arith

  other_key : (m n : ℕ) → n < m → not (eqb m n) ≡ true
  other_key m n h = ground arith

  without_key-middle :
      (front : List A) (b : A) (back : List A)
      → IsStrictDesc key (front ++ b ∷ back)
      → without_key (key b) (front ++ b ∷ back) ≡ front ++ back
  unfolding keep_if
  without_key-middle [] b back (hb, h) = rw (same_key (key b)) (apart (key b) back hb)
  without_key-middle (f ∷ front) b back (hf, h) =
      rw (other_key (key f) (key b) (All-middle (λ y. key y < key f) front b back hf))
        (ap (◌∷◌ f) (without_key-middle front b back h))

  keep_if-IsStrictDesc :
      (p : A → Bool) (xs : List A) → IsStrictDesc key xs → IsStrictDesc key (keep_if p xs)
  unfolding keep_if
  keep_if-IsStrictDesc p [] h = tt
  keep_if-IsStrictDesc p (x ∷ xs) (hx, h) = elim (Bool-cases (p x)) [
    | inl pass ↦ rw pass (All-keep_if (λ y. key y < key x) p xs hx, keep_if-IsStrictDesc p xs h)
    | inr fail ↦ rw fail (keep_if-IsStrictDesc p xs h)
  ]

  -- Removing the back of a strictly descending list, item by item, leaves its front.
  pub without_all-back :
      (front back : List A)
      → IsStrictDesc key (front ++ back)
      → without_all back (front ++ back) ≡ front
  unfolding without_all
  without_all-back front [] h = append-nil front
  without_all-back front (b ∷ back) h =
      let e = without_key-middle front b back h in
      rw e (
        without_all-back front back
          (rw e at (keep_if-IsStrictDesc (λ x. not (eqb (key x) (key b))) (front ++ b ∷ back) h)))

-- A function that leaves the number alone commutes with the sorting.
module _ {A : Type 0} (key : A → ℕ) (f : A → A) (same : (a : A) → key (f a) ≡ key a) where
  insert_desc-map :
      (x : A) (ys : List A) → insert_desc key (f x) (map f ys) ≡ map f (insert_desc key x ys)
  unfolding insert_desc
  insert_desc-map x [] = refl
  insert_desc-map x (y ∷ ys) = ground (arith, same x, same y, insert_desc-map x ys)

  pub sort_desc-map : (xs : List A) → sort_desc key (map f xs) ≡ map f (sort_desc key xs)
  unfolding sort_desc
  sort_desc-map [] = refl
  sort_desc-map (x ∷ xs) =
      ap (insert_desc key (f x)) (sort_desc-map xs) ∙ insert_desc-map x (sort_desc key xs)
