-- ===== src/History/Effects.antt =====
-- internal/application/usecase/game_commands.go: a command that succeeds, as a step of the replay.
pub mod Visible
pub mod Decides
use keep_it_up.Prelude.{
  ℤ, pos, Bool, true, false, Option, none, some, List, [], ◌∷◌, ◌++◌, map, String, str_eq, ◌≡◌,
  refl, sym, ◌∙◌, ap, ◌⊎◌, inl, inr, arith, filter, filter-append, All, ◌≤ℤ◌, ◌<ℤ◌, ==ℤ_iff, Result,
  ok, err, map_err, ◌>>=◌, if◌then◌else◌,
}
use keep_it_up.Time.{Time, zero_time, add, sub, seconds, Duration}
use keep_it_up.Model.{Status, not_started, playing, paused, Interaction, SharedData}
use keep_it_up.SharedData.{
  step, on_action, on_saved, on_paused, on_resumed, extended, build_shared_data, compute_valid,
  fresh, replay_from,
}
use keep_it_up.SharedData.Shape.{IsWellFormed, replay_from-IsWellFormed}
use keep_it_up.SharedData.Append.{
  last_at, build_shared_data-replay_from, build_shared_data-append_one,
}
use keep_it_up.SharedData.Moves.{
  on_action-saved, on_action-paused, on_action-resumed, on_saved_cases, step-Follows,
}
use keep_it_up.Stamp.{Codec, IsCodec, IsStorable, floor_second}
use keep_it_up.Db.{Sqlite, IsSqlite, Db, InteractionRow, empty_db, list_interactions_for_replay}
use keep_it_up.Db.Trigger.{of_game, trigger}
use keep_it_up.Db.Commands.{
  new_row, new_interaction_id, insert_interaction, query_save, query_pause, query_resume,
}
use keep_it_up.Usecase.{build_failed}
use keep_it_up.Usecase.GameCommands.{save, pause, resume}
use keep_it_up.Usecase.DataFetching.{get_shared_data}
use keep_it_up.Requests.{Request, Platform, Faults, perform_all}
use keep_it_up.History.Rows.{IsConsistent, IsConsistent-nil, domain_row}
use keep_it_up.History.Extend.{IsCommand, saving, pausing, resuming, stepped, IsConsistent-grown}
use keep_it_up.History.Run.{IsSound, All-filter, All-of_map}
use keep_it_up.History.Answers.{HaveClocks, get_shared_data-build, perform_all-IsSound}

-- What a command that succeeded has passed, and the row that it added.
pub record Added (q : Sqlite) (db db' : Db) (r : InteractionRow) : Type 0 where
  game : pos 1 ≤ℤ r.game_id
  pass : trigger q db.interactions r.game_id r.action r.occurred_at ≡ none
  grown : db'.interactions ≡ db.interactions ++ r ∷ []

module _ (q : Sqlite) (c : Codec) (t : Time) (db : Db) (g pl : ℤ) where
  pub save-Added :
      (n : ℤ)
      → (save q c (ok t) db g pl n).0 ≡ ok tt
      → Added q db
          (save q c (ok t) db g pl n).1
          (new_row q db g (some pl) "saved" (c.format t) (some n))
        × (pos 0 <ℤ n)
  unfolding save query_save insert_interaction
  save-Added n h =
      (record { game = ground arith; pass = ground arith; grown = ground arith }, ground arith)

  pub pause-Added :
      (pause q c (ok t) db g pl).0 ≡ ok tt
      → Added q db
          (pause q c (ok t) db g pl).1
          (new_row q db g (some pl) "paused" (c.format t) none)
  unfolding pause query_pause insert_interaction
  pause-Added h = record { game = ground arith; pass = ground arith; grown = ground arith }

  pub resume-Added :
      (resume q c (ok t) db g pl).0 ≡ ok tt
      → Added q db
          (resume q c (ok t) db g pl).1
          (new_row q db g (some pl) "resumed" (c.format t) none)
  unfolding resume query_resume insert_interaction
  resume-Added h = record { game = ground arith; pass = ground arith; grown = ground arith }

module _ (p : Platform) (laws : IsSqlite p.sqlite) (codec : IsCodec p.sqlite p.codec) (db db' : Db)
    (r : InteractionRow) (t : Time) (now : Time) (d : SharedData)
    (sound : IsSound p.sqlite p.codec db.interactions) (st : IsStorable t)
    (stamp : r.occurred_at ≡ p.codec.format t) (command : IsCommand r)
    (new_id : r.id ≡ new_interaction_id p.sqlite db) (a : Added p.sqlite db db' r)
    (up : p.sqlite.fault list_interactions_for_replay ≡ none)
    (was : get_shared_data p.sqlite p.codec db (ok now) r.game_id ≡ ok d) where
  abbrev con : IsConsistent p.sqlite p.codec r.game_id (filter (of_game r.game_id) db.interactions)
  con = sound.at_game r.game_id

  newer : All (λ (x : InteractionRow). x.id <ℤ r.id) (filter (of_game r.game_id) db.interactions)
  newer =
      All-filter (λ (x : InteractionRow). x.id <ℤ r.id) (of_game r.game_id) db.interactions
        (rw new_id (
          All-of_map (λ i. i <ℤ new_interaction_id p.sqlite db) (λ (x : InteractionRow). x.id)
            db.interactions
            (laws.next_id_above (map (λ (x : InteractionRow). x.id) db.interactions))))

  selected :
      filter (of_game r.game_id) db'.interactions
      ≡ filter (of_game r.game_id) db.interactions ++ r ∷ []
  unfolding filter
  selected =
      ap (filter (of_game r.game_id)) a.grown
      ∙ filter-append (of_game r.game_id) db.interactions (r ∷ [])
      ∙ rw ((==ℤ_iff r.game_id r.game_id).1 refl) refl

  was_state : d ≡ compute_valid con.state now
  was_state =
      let built =
        get_shared_data-build p laws codec db r.game_id _ refl con up now a.game
        ∙ ap (map_err build_failed) (build_shared_data-replay_from r.game_id con.log now) in
      ground (arith, built, con.replays)

  -- The state that `GetSharedData` returns after the command is the one of before, moved on by the
  -- new interaction.
  pub effect :
      (now' : Time)
      → (s s' : SharedData) × (d ≡ compute_valid s now)
        × IsWellFormed s
        × (on_action s (domain_row r t) ≡ ok s')
        × (get_shared_data p.sqlite p.codec db' (ok now') r.game_id ≡ ok (compute_valid s' now'))
  effect now' =
      let (s', took) =
        stepped p.sqlite p.codec laws codec db.interactions r t con st stamp command a.pass in
      let (con', log') =
        IsConsistent-grown p.sqlite p.codec laws codec db.interactions r t con st stamp command
          a.pass newer in
      (
        con.state,
        s',
        was_state,
        replay_from-IsWellFormed (fresh r.game_id) zero_time con.log con.state tt con.replays,
        (step-Follows con.state (last_at zero_time con.log) (domain_row r t) s' took).1,
        get_shared_data-build p laws codec db' r.game_id _ selected con' up now' a.game
            ∙ ap (λ l. map_err build_failed (build_shared_data r.game_id l now')) log'
            ∙ ap (map_err build_failed) (
                build_shared_data-append_one r.game_id con.log (domain_row r t) now' con.state
                  con.replays)
            ∙ rw took refl,
      )
