-- ===== src/History/Run.antt =====
-- The rows of all games, and an insertion into them (database/migrations).
use keep_it_up.Prelude.{
  ℤ, Bool, none, List, [], ◌∷◌, ◌++◌, map, ◌≡◌, subst, inl, inr, filter, filter-append, append-nil,
  All, ◌==ℤ◌, ==ℤ_iff, ◌<ℤ◌, Bool-cases,
}
use keep_it_up.Time.{Time}
use keep_it_up.Stamp.{Codec, IsCodec, IsStorable}
use keep_it_up.Db.{Sqlite, IsSqlite, Db, InteractionRow}
use keep_it_up.Db.Trigger.{of_game, trigger}
use keep_it_up.Db.Commands.{new_interaction_id, insert_interaction, insert_interaction_cases}
use keep_it_up.History.Rows.{IsConsistent}
use keep_it_up.History.Extend.{IsCommand, IsConsistent-append_one}

-- The rows of each game are consistent.
pub record IsSound (q : Sqlite) (c : Codec) (rows : List InteractionRow) : Type 0 where
  pub at_game : (game_id : ℤ) → IsConsistent q c game_id (filter (of_game game_id) rows)

pub All-filter :
    {A : Type 0} (P : A → Type 0) (p : A → Bool) (xs : List A) → All P xs → All P (filter p xs)
unfolding filter
All-filter P p [] h = tt
All-filter P p (x ∷ xs) h = elim (Bool-cases (p x)) [
  | inl e ↦ rw e (h.0, All-filter P p xs h.1)
  | inr e ↦ rw e (All-filter P p xs h.1)
]

pub All-of_map :
    {A B : Type 0} (P : B → Type 0) (f : A → B) (xs : List A)
    → All P (map f xs)
    → All (λ x. P (f x)) xs
All-of_map P f [] h = tt
All-of_map P f (x ∷ xs) h = (h.0, All-of_map P f xs h.1)

module _ (q : Sqlite) (c : Codec) (laws : IsSqlite q) (codec : IsCodec q c) where
  IsSound-append_one :
      (rows : List InteractionRow) (r : InteractionRow) (t : Time)
      → IsSound q c rows
      → IsStorable t
      → r.occurred_at ≡ c.format t
      → IsCommand r
      → trigger q rows r.game_id r.action r.occurred_at ≡ none
      → All (λ (x : InteractionRow). x.id <ℤ r.id) rows
      → IsSound q c (rows ++ r ∷ [])
  unfolding filter
  IsSound-append_one rows r t s st stamp k pass newer = record {
    at_game = λ g.
        rw (filter-append (of_game g) rows (r ∷ [])) (elim (Bool-cases (r.game_id ==ℤ g)) [
          | inl e ↦ rw e (
              subst (λ g'. IsConsistent q c g' (filter (of_game g') rows ++ r ∷ []))
                ((==ℤ_iff r.game_id g).0 e)
                (IsConsistent-append_one q c laws codec rows r t (s.at_game r.game_id) st stamp k
                  pass
                  (All-filter (λ (x : InteractionRow). x.id <ℤ r.id) (of_game r.game_id) rows
                    newer)))
          | inr e ↦ rw (e, append-nil) (s.at_game g)
        ]);
  }

  pub insert_interaction-IsSound :
      (db : Db) (r : InteractionRow) (t : Time)
      → IsSound q c db.interactions
      → IsStorable t
      → r.occurred_at ≡ c.format t
      → IsCommand r
      → r.id ≡ new_interaction_id q db
      → IsSound q c (insert_interaction q db r).1.interactions
  insert_interaction-IsSound db r t s st stamp k fresh_id = elim (insert_interaction_cases q db r) [
    | inl e ↦ rw e s
    | inr (pass, e) ↦ rw e (
        IsSound-append_one db.interactions r t s st stamp k pass (
          rw fresh_id (
            All-of_map (λ i. i <ℤ new_interaction_id q db) (λ (x : InteractionRow). x.id)
              db.interactions
              (laws.next_id_above (map (λ (x : InteractionRow). x.id) db.interactions)))))
  ]
