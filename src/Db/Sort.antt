-- ===== src/Db/Sort.antt =====
-- `ORDER BY`: a list sorted by a test, and the lists that are sorted already.
use mathlib.Core.List.{reverse-append}
use keep_it_up.Prelude.{
  Bool, true, false, List, [], ◌∷◌, ◌++◌, reverse, ◌≡◌, refl, if◌then◌else◌, All, All-append,
  All-map,
}

module _ {A : Type 0} (before : A → A → Bool) where
  unfoldable pub insert_by : A → List A → List A
  insert_by x [] = x ∷ []
  insert_by x (y ∷ ys) = let rest = insert_by x ys in if before x y then x ∷ y ∷ ys else y ∷ rest

  unfoldable pub order_by : List A → List A
  unfolding insert_by
  order_by [] = []
  order_by (x ∷ xs) = insert_by x (order_by xs)

  abbrev pub IsSortedBy : List A → Type 0
  IsSortedBy [] = Unit
  IsSortedBy (x ∷ xs) = All (λ y. before x y ≡ true) xs × IsSortedBy xs

  insert_by-first :
      (x : A) (ys : List A) → All (λ y. before x y ≡ true) ys → insert_by x ys ≡ x ∷ ys
  unfolding insert_by
  insert_by-first x [] h = refl
  insert_by-first x (y ∷ ys) h = rw h.0

  insert_by-last :
      (x : A) (ys : List A) → All (λ y. before x y ≡ false) ys → insert_by x ys ≡ ys ++ x ∷ []
  unfolding insert_by
  insert_by-last x [] h = refl
  insert_by-last x (y ∷ ys) h = rw (h.0, insert_by-last x ys h.1)

  pub order_by-IsSortedBy : (xs : List A) → IsSortedBy xs → order_by xs ≡ xs
  unfolding order_by
  order_by-IsSortedBy [] h = refl
  order_by-IsSortedBy (x ∷ xs) h =
      rw (order_by-IsSortedBy xs h.1) (unfold order_by in insert_by-first x xs h.0)

  pub IsSortedBy-append_one :
      (xs : List A) (x : A)
      → IsSortedBy xs
      → All (λ y. before y x ≡ true) xs
      → IsSortedBy (xs ++ x ∷ [])
  IsSortedBy-append_one [] x s h = (tt, tt)
  IsSortedBy-append_one (y ∷ ys) x s h = (
    All-append (λ z. before y z ≡ true) ys (x ∷ []) s.0 (h.0, tt),
    IsSortedBy-append_one ys x s.1 h.1,
  )

module _ {A : Type 0} (P : A → Type 0) where
  pub All-reverse : (xs : List A) → All P xs → All P (reverse xs)
  All-reverse [] h = tt
  All-reverse (x ∷ xs) h =
      rw (reverse-append (x ∷ []) xs)
        (All-append P (reverse xs) (x ∷ []) (All-reverse xs h.1) (h.0, tt))

-- Sorted by a strict test, a list is its own reverse under the opposite test.
pub order_by-reverse :
    {A : Type 0} (before : A → A → Bool)
    → ((x y : A) → before x y ≡ true → before y x ≡ false)
    → (xs : List A) → IsSortedBy before xs
    → order_by (λ x y. before y x) xs ≡ reverse xs
unfolding order_by
order_by-reverse before asym [] h = refl
order_by-reverse before asym (x ∷ xs) h =
    rw (order_by-reverse before asym xs h.1, reverse-append (x ∷ []) xs)
      (insert_by-last (λ x y. before y x) x (reverse xs)
        (All-reverse (λ y. before y x ≡ false) xs
          (All-map (λ y. before x y ≡ true) (λ y. before y x ≡ false) xs (asym x) h.0)))
