-- ===== src/History/Rows.antt =====
-- The rows of one game that the commands have written, and what the queries make of them.
use keep_it_up.Prelude.{
  ℤ, Bool, true, false, ◌&&◌, Option, none, some, List, [], ◌∷◌, ◌++◌, reverse, str_eq, ◌≡◌, refl,
  sym, ◌∙◌, ap, ◌⊎◌, inl, inr, arith, filter, any, All, ltb_ℤ-false_iff, ◌≤ℤ◌, if◌then◌else◌, ok,
  >>=-eq-ok, Bool-cases,
}
use keep_it_up.Time.{Time, zero_time}
use keep_it_up.Model.{Status, not_started, playing, paused, Interaction, SharedData}
use keep_it_up.SharedData.{replay_from, fresh}
use keep_it_up.SharedData.Append.{last_at}
use keep_it_up.Stamp.{Codec, IsCodec, IsStorable, floor_second}
use keep_it_up.Mapping.{nullable_int64, to_domain_interaction, to_domain_interactions}
use keep_it_up.Db.{Sqlite, IsSqlite, InteractionRow}
use keep_it_up.Db.Sort.{IsSortedBy, order_by-reverse}
use keep_it_up.Db.Trigger.{of_game, earlier, first_row, latest}

-- The timestamp was written by `Format`, from a time that it can write.
pub record Written (c : Codec) (r : InteractionRow) : Type 0 where
  pub time : Time
  pub storable : IsStorable time
  pub stamp : r.occurred_at ≡ c.format time

-- The status that the last action leaves a game in.
abbrev pub status_of : Option InteractionRow → Status
status_of none = not_started
status_of (some r) =
    if str_eq r.action "saved"
    then playing
    else if str_eq r.action "paused"
    then paused
    else if str_eq r.action "resumed"
    then playing
    else not_started

-- The rows of a game in the order of their insertion: they are in the order of the queries, and
-- the log that they map to replays, to the status that the last of them names.
pub record IsConsistent (q : Sqlite) (c : Codec) (game_id : ℤ) (l : List InteractionRow)
    : Type 0 where
  pub written : All (Written c) l
  pub sorted : IsSortedBy (earlier q) l
  pub log : List Interaction
  pub mapped : to_domain_interactions c l ≡ ok log
  pub state : SharedData
  pub replays : replay_from (fresh game_id) zero_time log ≡ ok state
  pub status : state.status ≡ status_of (first_row (reverse l))

pub IsConsistent-nil : (q : Sqlite) (c : Codec) (game_id : ℤ) → IsConsistent q c game_id []
unfolding to_domain_interactions replay_from
IsConsistent-nil q c game_id = record {
  written = tt;
  sorted = tt;
  log = [];
  mapped = refl;
  state = fresh game_id;
  replays = refl;
  status = refl;
}

module _ (q : Sqlite) (laws : IsSqlite q) where
  pub earlier_asym : (x y : InteractionRow) → earlier q x y ≡ true → earlier q y x ≡ false
  earlier_asym x y h = ground (
    arith,
    laws.text_before_asym x.occurred_at y.occurred_at,
    laws.text_before_asym y.occurred_at x.occurred_at,
  )

  -- The last row by the query's order is the row that was inserted last.
  pub latest-reverse :
      (rows : List InteractionRow) (game_id : ℤ)
      → IsSortedBy (earlier q) (filter (of_game game_id) rows)
      → latest q rows game_id ≡ first_row (reverse (filter (of_game game_id) rows))
  unfolding latest
  latest-reverse rows game_id h =
      ap first_row (order_by-reverse (earlier q) earlier_asym (filter (of_game game_id) rows) h)

-- A test that no row passes is passed by no row of a game.
pub All-of_any :
    (p test : InteractionRow → Bool) (rows : List InteractionRow)
    → any (λ r. p r && test r) rows ≡ false
    → All (λ r. test r ≡ false) (filter p rows)
unfolding any filter
All-of_any p test [] h = tt
All-of_any p test (r ∷ rest) h = elim (Bool-cases (p r)) [
  | inl e ↦ rw e (ground (arith, e), All-of_any p test rest (ground (arith, e)))
  | inr e ↦ rw e (All-of_any p test rest (ground (arith, e)))
]

-- The last of the times is the one asked about, or there is none.
pub last_at-le :
    (prev t : Time) (l : List Interaction)
    → (prev ≡ zero_time) ⊎ (prev ≤ℤ t)
    → All (λ (i : Interaction). i.occurred_at ≤ℤ t) l
    → (last_at prev l ≡ zero_time) ⊎ (last_at prev l ≤ℤ t)
last_at-le prev t [] p h = p
last_at-le prev t (i ∷ rest) p h = last_at-le i.occurred_at t rest (inr h.0) h.1

pub to_domain_interactions-append_one :
    (c : Codec) (l : List InteractionRow) (r : InteractionRow) (log : List Interaction)
    (i : Interaction)
    → to_domain_interactions c l ≡ ok log
    → to_domain_interaction c r ≡ ok i
    → to_domain_interactions c (l ++ r ∷ []) ≡ ok (log ++ i ∷ [])
unfolding to_domain_interactions
to_domain_interactions-append_one c [] r log i h e =
    let n : [] ≡ log = ground arith in rw (e, ← n) refl
to_domain_interactions-append_one c (x ∷ l) r log i h e =
    let (d, e₁, more) = >>=-eq-ok (to_domain_interaction c x) _ h in
    let (ds, e₂, done) = >>=-eq-ok (to_domain_interactions c l) _ more in
    let n : d ∷ ds ≡ log = ground arith in
    rw (e₁, to_domain_interactions-append_one c l r ds i e₂ e, ← n) refl

-- The domain's view of a row that was written at `t`.
abbrev pub domain_row : InteractionRow → Time → Interaction
domain_row r t = record {
  id = r.id;
  game_id = r.game_id;
  player_id = r.player_id;
  action = r.action;
  occurred_at = floor_second t;
  saved_by = r.saved_by;
}

nullable_int64_id : (o : Option ℤ) → nullable_int64 o ≡ o
nullable_int64_id none = refl
nullable_int64_id (some x) = refl

module _ (q : Sqlite) (c : Codec) (codec : IsCodec q c) where
  pub to_domain_interaction_of_Written :
      (r : InteractionRow) (t : Time)
      → IsStorable t
      → r.occurred_at ≡ c.format t
      → to_domain_interaction c r ≡ ok (domain_row r t)
  unfolding to_domain_interaction
  to_domain_interaction_of_Written r t s e =
      ground
        (arith, codec.parse-format t s, nullable_int64_id r.player_id, nullable_int64_id r.saved_by)

  -- Rows that are not after `t` as texts, map to interactions that are not after it as times.
  pub mapped-le :
      (t : Time) (l : List InteractionRow) (log : List Interaction)
      → IsStorable t
      → to_domain_interactions c l ≡ ok log
      → All (Written c) l
      → All (λ (r : InteractionRow). q.text_before (c.format t) r.occurred_at ≡ false) l
      → All (λ (i : Interaction). i.occurred_at ≤ℤ floor_second t) log
  unfolding to_domain_interactions
  mapped-le t [] log st h w p = let n : [] ≡ log = ground arith in rw (← n) tt
  mapped-le t (r ∷ l) log st h w p =
      let (d, e₁, more) = >>=-eq-ok (to_domain_interaction c r) _ h in
      let (ds, e₂, done) = >>=-eq-ok (to_domain_interactions c l) _ more in
      let n : d ∷ ds ≡ log = ground arith in
      let u = w.0.time in
      let e : to_domain_interaction c r ≡ ok (domain_row r u) =
        to_domain_interaction_of_Written r u w.0.storable w.0.stamp in
      let at : d.occurred_at ≡ floor_second u = ground arith in
      let le : floor_second u ≤ℤ floor_second t =
        (ltb_ℤ-false_iff (floor_second t) (floor_second u)).0
          (sym (codec.before-format t u st w.0.storable) ∙ rw w.0.stamp at p.0) in
      rw (← n) (rw at le, mapped-le t l ds st e₂ w.1 p.1)
