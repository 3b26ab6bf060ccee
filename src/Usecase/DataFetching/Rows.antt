-- ===== src/Usecase/DataFetching/Rows.antt =====
-- internal/application/usecase/data_fetching.go: the rows of a query, filtered, sorted,
-- cut and mapped.
use keep_it_up.Prelude.{
  ℕ, zero, suc, ◌≤◌, ℤ, Bool, true, Option, none, some, List, [], ◌∷◌, length, filter, take, drop,
  All, Result, ok, err, >>=-eq-ok, ok_inj, map_err, ◌≡◌, refl, sym, subst, ◌∙◌, ap, arith,
  Bool-cases, Option-cases, inl, inr,
}
use keep_it_up.Stamp.{Codec}
use keep_it_up.Model.{Interaction}
use keep_it_up.Mapping.{nullable_int64, to_domain_interaction, to_domain_interactions}
use keep_it_up.Db.{Sqlite, InteractionRow, DbError, Query, reading}
use keep_it_up.Db.Sort.{insert_by, order_by}
use keep_it_up.Usecase.DataFetching.{last}

module _ {A : Type 0} (P : A → Type 0) where
  pub All-take : (n : ℕ) (xs : List A) → All P xs → All P (take n xs)
  All-take zero xs h = tt
  All-take (suc n) [] h = tt
  All-take (suc n) (x ∷ xs) h = (h.0, All-take n xs h.1)

  pub All-drop : (n : ℕ) (xs : List A) → All P xs → All P (drop n xs)
  All-drop zero xs h = h
  All-drop (suc n) [] h = tt
  All-drop (suc n) (x ∷ xs) h = All-drop n xs h.1

pub length-take : {A : Type 0} (n : ℕ) (xs : List A) → length (take n xs) ≤ n
length-take zero xs = omega arith
length-take (suc n) [] = omega arith
length-take (suc n) (x ∷ xs) = omega (arith, length-take n xs)

pub All-filter : {A : Type 0} (p : A → Bool) (xs : List A) → All (λ x. p x ≡ true) (filter p xs)
unfolding filter
All-filter p [] = tt
All-filter p (x ∷ xs) = elim (Bool-cases (p x)) [
  | inl e ↦ rw e (e, All-filter p xs)
  | inr e ↦ rw e (All-filter p xs)
]

module _ {A : Type 0} (P : A → Type 0) (before : A → A → Bool) where
  All-insert_by : (x : A) (ys : List A) → P x → All P ys → All P (insert_by before x ys)
  unfolding insert_by
  All-insert_by x [] px h = (px, tt)
  All-insert_by x (y ∷ ys) px h = elim (Bool-cases (before x y)) [
    | inl e ↦ rw e (px, h)
    | inr e ↦ rw e (h.0, All-insert_by x ys px h.1)
  ]

  pub All-order_by : (xs : List A) → All P xs → All P (order_by before xs)
  unfolding order_by
  All-order_by [] h = tt
  All-order_by (x ∷ xs) h = All-insert_by x (order_by before xs) h.0 (All-order_by xs h.1)

nullable-eq : (o : Option ℤ) → nullable_int64 o ≡ o
nullable-eq none = refl
nullable-eq (some x) = refl

-- A row, and what it is mapped to.
pub to_domain_interaction-ok :
    (c : Codec) (r : InteractionRow) (i : Interaction)
    → to_domain_interaction c r ≡ ok i
    → (i.game_id ≡ r.game_id) × (i.player_id ≡ r.player_id)
unfolding to_domain_interaction
to_domain_interaction-ok c r i h = elim (Option-cases (c.parse r.occurred_at)) [
  | inl e ↦ absurd (ground (arith, h, e))
  | inr (t, e) ↦
      let same = ok_inj _ i (rw (e, to_domain_interaction) at h) in
      (
        sym (ap (λ (x : Interaction). x.game_id) same),
        sym (ap (λ (x : Interaction). x.player_id) same) ∙ nullable-eq r.player_id,
      )
]

module _ (c : Codec) (P : InteractionRow → Type 0) (Q : Interaction → Type 0)
    (carried : (r : InteractionRow) (i : Interaction)
      → to_domain_interaction c r ≡ ok i
      → P r
      → Q i) where
  pub All-to_domain_interactions :
      (rows : List InteractionRow) (is : List Interaction)
      → to_domain_interactions c rows ≡ ok is
      → All P rows
      → All Q is × (length is ≡ length rows)
  unfolding to_domain_interactions
  All-to_domain_interactions [] is h a =
      subst (λ (x : List Interaction). All Q x × (length x ≡ 0)) (ok_inj [] is h) (tt, refl)
  All-to_domain_interactions (r ∷ rows) is h a =
      let (d, one, rest) = >>=-eq-ok (to_domain_interaction c r) _ h in
      let (ds, more, last) = >>=-eq-ok (to_domain_interactions c rows) _ rest in
      let (all, same) = All-to_domain_interactions rows ds more a.1 in
      subst (λ (x : List Interaction). All Q x × (length x ≡ length (r ∷ rows)))
        (ok_inj (d ∷ ds) is last) ((carried r d one a.0, all), ap suc same)

pub reading-ok :
    {A : Type 0} (q : Sqlite) (name : Query) (r : Result DbError A) (a : A)
    → reading q name r ≡ ok a
    → r ≡ ok a
reading-ok q name r a h = elim (Option-cases (q.fault name)) [
  | inl e ↦ rw (e, reading) at h
  | inr (text, e) ↦ absurd (ground (arith, h, e))
]

pub map_err-ok :
    {E F A : Type 0} (f : E → F) (r : Result E A) (a : A) → map_err f r ≡ ok a → r ≡ ok a
map_err-ok f (ok b) a h = ap ok (ok_inj b a h)
map_err-ok f (err e) a h = absurd (ground (arith, h))
