-- ===== src/History/Readers.antt =====
-- internal/application/usecase/data_fetching.go: the readers of interactions after a history of calls.
use mathlib.Core.List.{reverse-append}
use keep_it_up.Prelude.{
  ℕ, zero, suc, ℤ, pos, Option, none, some, List, [], ◌∷◌, reverse, take, drop, ◌≡◌, refl, arith,
  filter, ◌≤ℤ◌, ok, >>=-eq-ok,
}
use keep_it_up.Model.{Interaction}
use keep_it_up.Stamp.{Codec, IsCodec}
use keep_it_up.Mapping.{to_domain_interaction, to_domain_interactions}
use keep_it_up.Db.{
  Sqlite, IsSqlite, Db, Query, InteractionRow, empty_db, first_interaction, last_interaction,
  list_recent_interactions,
}
use keep_it_up.Db.Sort.{order_by, order_by-IsSortedBy, order_by-reverse}
use keep_it_up.Db.Trigger.{of_game, earlier, later, first_row}
use keep_it_up.Db.Fetching.{
  one_row, query_first_interaction, query_last_interaction, query_recent_interactions,
}
use keep_it_up.Usecase.DataFetching.{optional_row, list_interactions, first, last}
use keep_it_up.Requests.{Request, Platform, Faults, perform_all}
use keep_it_up.History.Rows.{
  IsConsistent, IsConsistent-nil, to_domain_interactions-append_one, earlier_asym, latest-reverse,
}
use keep_it_up.History.Answers.{HaveClocks, perform_all-IsSound}

-- The first interaction of a log, if it has one.
abbrev pub first_of : List Interaction → Option Interaction
first_of [] = none
first_of (i ∷ rest) = some i

module _ (c : Codec) where
  -- The inversion of a mapping that succeeds.
  mapped-cons :
      (r : InteractionRow) (l : List InteractionRow) (log : List Interaction)
      → to_domain_interactions c (r ∷ l) ≡ ok log
      → (i : Interaction) × (rest : List Interaction) × (to_domain_interaction c r ≡ ok i)
        × (to_domain_interactions c l ≡ ok rest)
        × (log ≡ i ∷ rest)
  unfolding to_domain_interactions
  mapped-cons r l log h =
      let (i, one, more) = >>=-eq-ok (to_domain_interaction c r) _ h in
      let (rest, later, done) = >>=-eq-ok (to_domain_interactions c l) _ more in
      (i, rest, one, later, ground arith)

  mapped-nil : (log : List Interaction) → to_domain_interactions c [] ≡ ok log → log ≡ []
  unfolding to_domain_interactions
  mapped-nil log h = ground arith

  mapped-drop :
      (m : ℕ) (l : List InteractionRow) (log : List Interaction)
      → to_domain_interactions c l ≡ ok log
      → to_domain_interactions c (drop m l) ≡ ok (drop m log)
  mapped-drop zero l log h = h
  mapped-drop (suc m) [] log h = rw (mapped-nil log h) (rw (mapped-nil log h) at h)
  mapped-drop (suc m) (r ∷ l) log h =
      let (i, rest, one, more, same) = mapped-cons r l log h in rw same (mapped-drop m l rest more)

  mapped-take :
      (n : ℕ) (l : List InteractionRow) (log : List Interaction)
      → to_domain_interactions c l ≡ ok log
      → to_domain_interactions c (take n l) ≡ ok (take n log)
  unfolding to_domain_interactions
  mapped-take zero l log h = refl
  mapped-take (suc n) [] log h = rw (mapped-nil log h) refl
  mapped-take (suc n) (r ∷ l) log h =
      let (i, rest, one, more, same) = mapped-cons r l log h in
      rw (same, one, mapped-take n l rest more) refl

  mapped-reverse :
      (l : List InteractionRow) (log : List Interaction)
      → to_domain_interactions c l ≡ ok log
      → to_domain_interactions c (reverse l) ≡ ok (reverse log)
  mapped-reverse [] log h = rw (mapped-nil log h) (rw (mapped-nil log h) at h)
  mapped-reverse (r ∷ l) log h =
      let (i, rest, one, more, same) = mapped-cons r l log h in
      rw (same, reverse-append (r ∷ []) l, reverse-append (i ∷ []) rest)
        (to_domain_interactions-append_one c (reverse l) r (reverse rest) i
          (mapped-reverse l rest more) one)

-- The end of the two readers of one interaction.
optional-first :
    (c : Codec) (name : Query) (l : List InteractionRow) (log : List Interaction)
    → to_domain_interactions c l ≡ ok log
    → optional_row c name (one_row (first_row l)) ≡ ok (first_of log)
optional-first c name [] log h = rw (mapped-nil c log h) refl
optional-first c name (r ∷ l) log h =
    let (i, rest, one, more, same) = mapped-cons c r l log h in rw (same, one) refl

module _ (q : Sqlite) (c : Codec) (laws : IsSqlite q) (db : Db) (g : ℤ) (positive : pos 1 ≤ℤ g)
    (con : IsConsistent q c g (filter (of_game g) db.interactions)) where
  newest_first :
      order_by (later q) (filter (of_game g) db.interactions)
      ≡ reverse (filter (of_game g) db.interactions)
  newest_first = order_by-reverse (earlier q) (earlier_asym q laws) _ con.sorted

  list-log :
      (n m : ℕ)
      → q.fault list_recent_interactions ≡ none
      → list_interactions q c db g (pos n) (pos m) ≡ ok (take n (drop m (reverse con.log)))
  unfolding list_interactions query_recent_interactions
  list-log n m up =
      let mapped =
        mapped-take c n _ _ (mapped-drop c m _ _ (mapped-reverse c _ con.log con.mapped)) in
      ground (arith, newest_first, mapped)

  first-log : q.fault first_interaction ≡ none → first q c db g ≡ ok (first_of con.log)
  unfolding first query_first_interaction
  first-log up =
      let found = optional-first c first_interaction _ con.log con.mapped in
      let sorted = order_by-IsSortedBy (earlier q) _ con.sorted in ground (arith, found, sorted)

  last-log : q.fault last_interaction ≡ none → last q c db g ≡ ok (first_of (reverse con.log))
  unfolding last query_last_interaction
  last-log up =
      let found =
        optional-first c last_interaction _ (reverse con.log)
          (mapped-reverse c _ con.log con.mapped) in
      ground (arith, found, latest-reverse q laws db.interactions g con.sorted)

module _ (p : Platform) (laws : IsSqlite p.sqlite) (codec : IsCodec p.sqlite p.codec) where
  -- After any history of calls, and for a valid game id, what the three readers of a game's
  -- interactions return, if their queries run, are parts of one log, the game's rows in the order
  -- in which they were inserted: `FirstInteraction` its first, `LastInteraction` its last (nil if
  -- it is empty), and `ListInteractions`, from the newest on, the number that the limit allows
  -- after skipping the offset.
  pub readers_agree :
      (history : List (Faults × Request)) (g : ℤ) (limit offset : ℕ)
      → HaveClocks history
      → pos 1 ≤ℤ g
      → p.sqlite.fault list_recent_interactions ≡ none
      → p.sqlite.fault first_interaction ≡ none
      → p.sqlite.fault last_interaction ≡ none
      → (log : List Interaction) × (to_domain_interactions p.codec
            (filter (of_game g) (perform_all p history empty_db).interactions)
          ≡ ok log)
        × (first p.sqlite p.codec (perform_all p history empty_db) g ≡ ok (first_of log))
        × (last p.sqlite p.codec (perform_all p history empty_db) g ≡ ok (first_of (reverse log)))
        × (list_interactions p.sqlite p.codec
              (perform_all p history empty_db)
              g
              (pos limit)
              (pos offset)
            ≡ ok (take limit (drop offset (reverse log))))
  unfolding filter
  readers_agree history g limit offset clocks positive up_list up_first up_last =
      let db = perform_all p history empty_db in
      let con =
        (perform_all-IsSound p laws codec history empty_db clocks
            (record { at_game = λ g'. IsConsistent-nil p.sqlite p.codec g' })).at_game
          g in
      (
        con.log,
        con.mapped,
        first-log p.sqlite p.codec laws db g positive con up_first,
        last-log p.sqlite p.codec laws db g positive con up_last,
        list-log p.sqlite p.codec laws db g positive con limit offset up_list,
      )
