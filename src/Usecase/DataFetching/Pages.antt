-- ===== src/Usecase/DataFetching/Pages.antt =====
-- internal/application/usecase/data_fetching.go: whose interactions the readers return.
use mathlib.Core.Option.{some-injective}
use keep_it_up.Prelude.{
  ℕ, ◌≤◌, ℤ, pos, negsuc, Bool, true, false, ◌&&◌, some, List, [], ◌∷◌, length, filter, take, drop,
  All, ltb_ℤ, ltb_ℤ-false_iff, ==ℤ_iff, Result, ok, err, >>=-eq-ok, ok_inj, map_err, ◌≡◌, refl,
  subst, ◌∙◌, ap, arith, Bool-cases, Option-cases, inl, inr,
}
use keep_it_up.Stamp.{Codec}
use keep_it_up.Model.{Interaction}
use keep_it_up.Mapping.{to_domain_interaction, to_domain_interactions}
use keep_it_up.Db.{
  Sqlite, Db, InteractionRow, DbError, no_rows, Query, list_recent_interactions,
  list_player_interactions, first_interaction, last_interaction, reading,
}
use keep_it_up.Db.Sort.{order_by}
use keep_it_up.Db.Trigger.{of_game, first_row, latest, earlier, later}
use keep_it_up.Db.Fetching.{
  query_recent_interactions, query_player_interactions, query_first_interaction,
  query_last_interaction, one_row, by_player,
}
use keep_it_up.Usecase.{query_failed, mapping_failed}
use keep_it_up.Usecase.DataFetching.{
  optional_row, list_interactions, list_own_interactions, first, last,
}
use keep_it_up.Usecase.DataFetching.Rows.{
  All-take, All-drop, length-take, All-filter, All-order_by, to_domain_interaction-ok,
  All-to_domain_interactions, reading-ok, map_err-ok,
}

-- The interactions have a property, and are as many as the limit at most.
abbrev pub IsPage : (Interaction → Type 0) → ℤ → List Interaction → Type 0
IsPage Q limit is = All Q is × ((n : ℕ) × (limit ≡ pos n) × (length is ≤ n))

own-player :
    (g pl : ℤ) (r : InteractionRow)
    → (of_game g r && by_player (some pl) r) ≡ true
    → (r.game_id ≡ g) × (r.player_id ≡ some pl)
own-player g pl r h = elim (Option-cases r.player_id) [
  | inl e ↦ absurd (ground (arith, h, e))
  | inr (o, e) ↦ (ground (arith, h, ==ℤ_iff r.game_id g), ground (arith, h, e, ==ℤ_iff o pl))
]

one_row-All :
    (P : InteractionRow → Type 0) (rows : List InteractionRow) (r : InteractionRow)
    → one_row (first_row rows) ≡ ok r
    → All P rows
    → P r
one_row-All P [] r h a = absurd (ground (arith, h))
one_row-All P (x ∷ rows) r h a = subst P (ok_inj x r h) a.0

optional_row-ok :
    (c : Codec) (name : Query) (r : Result DbError InteractionRow) (i : Interaction)
    → optional_row c name r ≡ ok (some i)
    → (row : InteractionRow) × (r ≡ ok row) × (to_domain_interaction c row ≡ ok i)
optional_row-ok c name (ok row) i h =
    let (d, one, last) = >>=-eq-ok (map_err mapping_failed (to_domain_interaction c row)) _ h in
    (row, refl, map_err-ok _ _ d one ∙ ap ok (some-injective d i (ok_inj (some d) (some i) last)))
optional_row-ok c name (err no_rows) i h = absurd (ground (arith, h))
optional_row-ok c name (err e) i h = absurd (ground (arith, h))

module _ (q : Sqlite) (c : Codec) (db : Db) where
  -- The rows of a page satisfy the query's test.
  page : (InteractionRow → Bool) → ℕ → ℕ → List InteractionRow
  page test n m = take n (drop m (order_by (later q) (filter test db.interactions)))

  page-All : (test : InteractionRow → Bool) (n m : ℕ) → All (λ r. test r ≡ true) (page test n m)
  unfolding page
  page-All test n m =
      All-take (λ r. test r ≡ true) n _
        (All-drop (λ r. test r ≡ true) m _
          (All-order_by (λ r. test r ≡ true) (later q) (filter test db.interactions)
            (All-filter test db.interactions)))

  page-mapped :
      (Q : Interaction → Type 0) (test : InteractionRow → Bool) (n m : ℕ) (is : List Interaction)
      → ((r : InteractionRow) (i : Interaction)
          → to_domain_interaction c r ≡ ok i
          → test r ≡ true
          → Q i)
      → to_domain_interactions c (page test n m) ≡ ok is
      → All Q is × (length is ≤ n)
  unfolding page
  page-mapped Q test n m is carried h =
      let (all, same) =
        All-to_domain_interactions c (λ r. test r ≡ true) Q carried (page test n m) is h
          (page-All test n m) in
      (
        all,
        omega (
          arith,
          same,
          length-take n (drop m (order_by (later q) (filter test db.interactions))),
        ),
      )

  not_negative : (n : ℕ) → ltb_ℤ (pos n) (pos 0) ≡ false
  not_negative n = (ltb_ℤ-false_iff (pos n) (pos 0)).1 (omega arith)

  -- A page is of the game that is asked for, and has as many interactions as asked for at most.
  pub list_interactions-IsPage :
      (g limit offset : ℤ) (is : List Interaction)
      → list_interactions q c db g limit offset ≡ ok is
      → IsPage (λ i. i.game_id ≡ g) limit is
  unfolding list_interactions query_recent_interactions page
  list_interactions-IsPage g (pos n) (pos m) is h = elim (Bool-cases (ltb_ℤ g (pos 1))) [
    | inl e ↦ absurd (ground (arith, h, e))
    | inr e ↦
        let (rows, found, mapped) =
          >>=-eq-ok
            (map_err (query_failed list_recent_interactions)
              (query_recent_interactions q db g (pos n) (pos m)))
            _ (rw (e, not_negative n, not_negative m) at h) in
        let same =
          reading-ok q list_recent_interactions (ok (page (of_game g) n m)) rows
            (map_err-ok _ _ rows found) in
        let (all, few) =
          page-mapped (λ i. i.game_id ≡ g) (of_game g) n m is
            (λ r i one own. (to_domain_interaction-ok c r i one).0 ∙ (==ℤ_iff r.game_id g).0 own)
            (ap (to_domain_interactions c) (ok_inj _ rows same) ∙ map_err-ok _ _ is mapped) in
        (all, (n, refl, few))
  ]
  list_interactions-IsPage g (pos n) (negsuc m) is h = absurd (ground (arith, h))
  list_interactions-IsPage g (negsuc n) offset is h = absurd (ground (arith, h))

  -- A page of a player is of the player, too.
  pub list_own_interactions-IsPage :
      (g pl limit offset : ℤ) (is : List Interaction)
      → list_own_interactions q c db g pl limit offset ≡ ok is
      → IsPage (λ i. (i.game_id ≡ g) × (i.player_id ≡ some pl)) limit is
  unfolding list_own_interactions query_player_interactions page
  list_own_interactions-IsPage g pl (pos n) (pos m) is h = elim (Bool-cases (ltb_ℤ g (pos 1))) [
    | inl e ↦ absurd (ground (arith, h, e))
    | inr e ↦ elim (Bool-cases (ltb_ℤ pl (pos 1))) [
      | inl e' ↦ absurd (ground (arith, h, e, e'))
      | inr e' ↦
          let (rows, found, mapped) =
            >>=-eq-ok
              (map_err (query_failed list_player_interactions)
                (query_player_interactions q db g (some pl) (pos n) (pos m)))
              _ (rw (e, e', not_negative n, not_negative m) at h) in
          let test : InteractionRow → Bool = λ r. of_game g r && by_player (some pl) r in
          let same =
            reading-ok q list_player_interactions (ok (page test n m)) rows
              (map_err-ok _ _ rows found) in
          let (all, few) =
            page-mapped (λ i. (i.game_id ≡ g) × (i.player_id ≡ some pl)) test n m is
              (λ r i one own. (
                (to_domain_interaction-ok c r i one).0 ∙ (own-player g pl r own).0,
                (to_domain_interaction-ok c r i one).1 ∙ (own-player g pl r own).1,
              ))
              (ap (to_domain_interactions c) (ok_inj _ rows same) ∙ map_err-ok _ _ is mapped) in
          (all, (n, refl, few))
    ]
  ]
  list_own_interactions-IsPage g pl (pos n) (negsuc m) is h = absurd (ground (arith, h))
  list_own_interactions-IsPage g pl (negsuc n) offset is h = absurd (ground (arith, h))

  one_row-game :
      (g : ℤ) (name : Query) (before : InteractionRow → InteractionRow → Bool) (i : Interaction)
      → optional_row c name (
          reading q name
            (one_row (first_row (order_by before (filter (of_game g) db.interactions)))))
        ≡ ok (some i)
      → i.game_id ≡ g
  one_row-game g name before i h =
      let rows = order_by before (filter (of_game g) db.interactions) in
      let (row, found, mapped) =
        optional_row-ok c name (reading q name (one_row (first_row rows))) i h in
      (to_domain_interaction-ok c row i mapped).0
      ∙ (==ℤ_iff row.game_id g).0 (
          one_row-All (λ r. of_game g r ≡ true) rows row
            (reading-ok q name (one_row (first_row rows)) row found)
            (All-order_by (λ r. of_game g r ≡ true) before (filter (of_game g) db.interactions)
              (All-filter (of_game g) db.interactions)))

  pub first-game : (g : ℤ) (i : Interaction) → first q c db g ≡ ok (some i) → i.game_id ≡ g
  unfolding first query_first_interaction
  first-game g i h = elim (Bool-cases (ltb_ℤ g (pos 1))) [
    | inl e ↦ absurd (ground (arith, h, e))
    | inr e ↦ one_row-game g first_interaction (earlier q) i (rw e at h)
  ]

  pub last-game : (g : ℤ) (i : Interaction) → last q c db g ≡ ok (some i) → i.game_id ≡ g
  unfolding last query_last_interaction latest
  last-game g i h = elim (Bool-cases (ltb_ℤ g (pos 1))) [
    | inl e ↦ absurd (ground (arith, h, e))
    | inr e ↦ one_row-game g last_interaction (later q) i (rw e at h)
  ]
