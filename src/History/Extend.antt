-- ===== src/History/Extend.antt =====
-- A row that passes the trigger (database/migrations), as an interaction of the replay.
use keep_it_up.Prelude.{
  ℤ, pos, true, false, ◌&&◌, ◌||◌, Option, none, some, List, [], ◌∷◌, ◌++◌, reverse, String, eq_iff,
  ◌≡◌, ◌≢◌, refl, sym, ◌∙◌, ap, inl, arith, filter, any, All, All-append, ◌<ℤ◌, ok, ok_of_never_err,
}
use mathlib.Core.List.{reverse-append}
use keep_it_up.Time.{Time, zero_time}
use keep_it_up.Model.{Status, not_started, playing, paused, Interaction, SharedData}
use keep_it_up.SharedData.{step, replay_from, fresh}
use keep_it_up.SharedData.Shape.{replay_from-IsWellFormed, replay_from-game_id}
use keep_it_up.SharedData.Append.{last_at, replay_from-append}
use keep_it_up.SharedData.Moves.{
  IsSave, Move, start, extend, pause, resume, Follows, Move-unique, on_action-Move,
  on_action-ne_err, step-Follows, step_of_Follows, literals_differ,
}
use keep_it_up.Stamp.{Codec, IsCodec, IsStorable, floor_second}
use keep_it_up.Db.{Sqlite, IsSqlite, InteractionRow}
use keep_it_up.Db.Sort.{IsSortedBy-append_one}
use keep_it_up.Db.Trigger.{of_game, earlier, first_row, latest, acted, trigger}
use keep_it_up.History.Rows.{
  Written, status_of, IsConsistent, domain_row, latest-reverse, All-of_any, last_at-le,
  to_domain_interactions-append_one, to_domain_interaction_of_Written, mapped-le,
}

-- A row as the three commands write them.
pub data IsCommand (r : InteractionRow) : Type 0 where
  saving : (s : ℤ) → r.action ≡ "saved" → r.saved_by ≡ some s → pos 0 <ℤ s → IsCommand r
  pausing : r.action ≡ "paused" → IsCommand r
  resuming : r.action ≡ "resumed" → IsCommand r

module _ (q : Sqlite) (rows : List InteractionRow) (game_id : ℤ) (action at : String) where
  trigger_in_order :
      trigger q rows game_id action at ≡ none
      → any (λ r. of_game game_id r && q.text_before at r.occurred_at) rows ≡ false
  unfolding trigger
  trigger_in_order h = ground arith

  trigger_saved :
      trigger q rows game_id action at ≡ none
      → action ≡ "saved"
      → acted (latest q rows game_id) "paused" ≡ false
  unfolding trigger
  trigger_saved h e = ground (arith, eq_iff action "saved")

  trigger_paused :
      trigger q rows game_id action at ≡ none
      → action ≡ "paused"
      → (acted (latest q rows game_id) "saved" || acted (latest q rows game_id) "resumed") ≡ true
  unfolding trigger
  trigger_paused h e = ground (arith, eq_iff action "paused")

  trigger_resumed :
      trigger q rows game_id action at ≡ none
      → action ≡ "resumed"
      → acted (latest q rows game_id) "paused" ≡ true
  unfolding trigger
  trigger_resumed h e = ground (arith, eq_iff action "resumed")

-- The trigger's tests of the last row, as the status that the row names.
status_not_paused : (o : Option InteractionRow) → acted o "paused" ≡ false → status_of o ≢ paused
status_not_paused none h e = cc
status_not_paused (some r) h e = ground arith

status_playing :
    (o : Option InteractionRow)
    → (acted o "saved" || acted o "resumed") ≡ true
    → status_of o ≡ playing
status_playing none h = ground arith
status_playing (some r) h = ground (
  arith,
  eq_iff r.action "saved",
  eq_iff r.action "paused",
  eq_iff r.action "resumed",
  literals_differ,
)

status_paused : (o : Option InteractionRow) → acted o "paused" ≡ true → status_of o ≡ paused
status_paused none h = ground arith
status_paused (some r) h =
    ground (arith, eq_iff r.action "saved", eq_iff r.action "paused", literals_differ)

status_saved_row : (r : InteractionRow) → r.action ≡ "saved" → status_of (some r) ≡ playing
status_saved_row r e = ground (arith, eq_iff r.action "saved")

Move_of_save : {s : Status} (ia : Interaction) → IsSave ia → s ≢ paused → Move s ia playing
Move_of_save {s = not_started} ia h n = start ia h
Move_of_save {s = playing} ia h n = extend ia h
Move_of_save {s = paused} ia h n = absurd (n refl)

-- What the trigger lets through is a move of the state machine, from the status of the last row to
-- the status of the new one.
move_of_trigger :
    (q : Sqlite) (rows : List InteractionRow) (game_id : ℤ) (r : InteractionRow) (t : Time)
    → IsCommand r
    → trigger q rows game_id r.action r.occurred_at ≡ none
    → Move (status_of (latest q rows game_id)) (domain_row r t) (status_of (some r))
move_of_trigger q rows game_id r t (saving s a e p) h = rw (status_saved_row r a) (
    Move_of_save (domain_row r t)
      (record { is_saved = a; duration = s; has_duration = e; positive = p })
      (status_not_paused (latest q rows game_id)
        (trigger_saved q rows game_id r.action r.occurred_at h a)))
move_of_trigger q rows game_id r t (pausing a) h =
    rw
      (
        status_playing (latest q rows game_id)
            (trigger_paused q rows game_id r.action r.occurred_at h a),
        status_paused (some r) ((eq_iff r.action "paused").1 a),
      )
      (pause (domain_row r t) a)
move_of_trigger q rows game_id r t (resuming a) h =
    rw
      (
        status_paused (latest q rows game_id)
            (trigger_resumed q rows game_id r.action r.occurred_at h a),
        status_playing (some r) (ground (arith, eq_iff r.action "resumed")),
      )
      (resume (domain_row r t) a)

module _ (q : Sqlite) (c : Codec) (laws : IsSqlite q) (codec : IsCodec q c)
    (rows : List InteractionRow) (r : InteractionRow) (t : Time)
    (con : IsConsistent q c r.game_id (filter (of_game r.game_id) rows)) (st : IsStorable t)
    (stamp : r.occurred_at ≡ c.format t) (command : IsCommand r)
    (pass : trigger q rows r.game_id r.action r.occurred_at ≡ none) where
  abbrev game_rows : List InteractionRow
  game_rows = filter (of_game r.game_id) rows

  abbrev ia : Interaction
  ia = domain_row r t

  not_after :
      All (λ (x : InteractionRow). q.text_before r.occurred_at x.occurred_at ≡ false) game_rows
  not_after =
      All-of_any (of_game r.game_id) (λ x. q.text_before r.occurred_at x.occurred_at) rows
        (trigger_in_order q rows r.game_id r.action r.occurred_at pass)

  follows : Follows con.state.game_id (last_at zero_time con.log) ia
  follows = record {
    same_game = sym (replay_from-game_id (fresh r.game_id) zero_time con.log con.state con.replays);
    in_order =
        last_at-le zero_time (floor_second t) con.log (inl refl) (
          mapped-le q c codec t game_rows con.log st con.mapped con.written
            (rw stamp at not_after));
  }

  moves : Move con.state.status ia (status_of (some r))
  moves =
      rw (con.status, ← latest-reverse q laws rows r.game_id con.sorted)
        (move_of_trigger q rows r.game_id r t command pass)

  -- The domain accepts the row.
  pub stepped : (d' : SharedData) × (step con.state (last_at zero_time con.log) ia ≡ ok d')
  stepped = ok_of_never_err (step con.state (last_at zero_time con.log) ia) λ x p.
      on_action-ne_err con.state ia x refl
        (replay_from-IsWellFormed (fresh r.game_id) zero_time con.log con.state tt con.replays)
        moves (sym (step_of_Follows con.state (last_at zero_time con.log) ia follows) ∙ p)

  stepped_status : stepped.0.status ≡ status_of (some r)
  stepped_status =
      Move-unique
        (on_action-Move con.state ia stepped.0
          (step-Follows con.state (last_at zero_time con.log) ia stepped.0 stepped.1).1)
        moves

  sorted_before :
      (l : List InteractionRow)
      → All (λ (x : InteractionRow). q.text_before r.occurred_at x.occurred_at ≡ false) l
      → All (λ (x : InteractionRow). x.id <ℤ r.id) l
      → All (λ (x : InteractionRow). earlier q x r ≡ true) l
  sorted_before [] h k = tt
  sorted_before (x ∷ l) h k = (ground (arith, h.0, k.0), sorted_before l h.1 k.1)

  last_reversed : first_row (reverse (game_rows ++ r ∷ [])) ≡ some r
  last_reversed = rw (reverse-append game_rows (r ∷ []))

  -- The rows with the new one map to the log with one interaction more.
  pub IsConsistent-grown :
      All (λ (x : InteractionRow). x.id <ℤ r.id) game_rows
      → (con' : IsConsistent q c r.game_id (game_rows ++ r ∷ [])) × (con'.log ≡ con.log ++ ia ∷ [])
  unfolding replay_from
  IsConsistent-grown newer = (
    record {
      written =
          All-append (Written c) game_rows (r ∷ []) con.written
            (record { time = t; storable = st; stamp = stamp }, tt);
      sorted =
          IsSortedBy-append_one (earlier q) game_rows r con.sorted
            (sorted_before game_rows not_after newer);
      log = con.log ++ ia ∷ [];
      mapped =
          to_domain_interactions-append_one c game_rows r con.log ia con.mapped
            (to_domain_interaction_of_Written q c codec r t st stamp);
      state = stepped.0;
      replays =
          replay_from-append (fresh r.game_id) zero_time con.log (ia ∷ [])
          ∙ rw con.replays (rw stepped.1 refl);
      status = stepped_status ∙ ap status_of (sym last_reversed);
    },
    refl,
  )

  pub IsConsistent-append_one :
      All (λ (x : InteractionRow). x.id <ℤ r.id) game_rows
      → IsConsistent q c r.game_id (game_rows ++ r ∷ [])
  IsConsistent-append_one newer = (IsConsistent-grown newer).0
