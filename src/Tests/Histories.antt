-- ===== src/Tests/Histories.antt =====
-- Commands after a history of calls, as `GetSharedData` shows them.
use keep_it_up.Prelude.{
  reverse, drop, take, pos, true, none, some, List, [], ◌∷◌, ◌≡◌, refl, arith, ok, ◌+ℤ◌, filter,
  any,
}
use keep_it_up.Time.{add, sub, seconds, wrap64}
use keep_it_up.Model.{playing, paused, Interaction, SharedData}
use keep_it_up.SharedData.{
  build_shared_data, replay_from, step, on_action, on_saved, on_paused, extended, compute_valid,
}
use keep_it_up.Stamp.{floor_second}
use keep_it_up.Text.{byte_len}
use keep_it_up.Mapping.{to_domain_interaction, to_domain_interactions}
use keep_it_up.Db.{empty_db}
use keep_it_up.Db.Sort.{order_by, insert_by}
use keep_it_up.Db.Trigger.{of_game, latest, trigger}
use keep_it_up.Db.Commands.{insert_interaction, query_save, query_pause, query_resume}
use keep_it_up.Db.Fetching.{query_interactions_for_replay}
use keep_it_up.Usecase.GameCommands.{save, pause, resume}
use keep_it_up.Usecase.DataFetching.{get_shared_data, first, last, list_interactions}
use keep_it_up.History.Readers.{first_of, readers_agree}
use keep_it_up.Requests.{Request, save_game, pause_game, Faults, perform, perform_all}
use keep_it_up.History.Effects.Visible.{deadline_or, save_visible, pause_visible, resume_visible}
use keep_it_up.Tests.Engine.{engine, engine-IsSqlite, codec, codec-IsCodec}
use keep_it_up.Tests.Games.{at}
use keep_it_up.Tests.Commands.{platform}

-- Saved at 1 s for 4 s; and then paused at 3 s.
abbrev saved_once : List (Faults × Request)
saved_once = (λ name. none, save_game (ok (at 1)) (pos 7) (pos 3) (pos 4)) ∷ []

abbrev then_paused : List (Faults × Request)
then_paused =
    (λ name. none, save_game (ok (at 1)) (pos 7) (pos 3) (pos 4))
    ∷ (λ name. none, pause_game (ok (at 3)) (pos 7) (pos 3))
    ∷ []

abbrev pub running : SharedData
running = record {
  game_id = pos 7;
  valid = some true;
  status = playing;
  deadline_at = some (at 5);
  last_saved_at = some (at 1);
  last_paused_at = none;
}

abbrev stopped : SharedData
stopped = record {
  game_id = pos 7;
  valid = some true;
  status = paused;
  deadline_at = some (at 5);
  last_saved_at = some (at 1);
  last_paused_at = some (at 3);
}

is_running :
    get_shared_data engine codec (perform_all platform saved_once empty_db) (ok (at 3)) (pos 7)
    ≡ ok running
unfolding get_shared_data perform_all perform save pause query_save query_pause insert_interaction
    trigger latest order_by insert_by filter any byte_len query_interactions_for_replay
    to_domain_interactions to_domain_interaction build_shared_data replay_from step on_action
    on_saved on_paused extended compute_valid seconds wrap64 ◌+ℤ◌
is_running = refl

is_stopped :
    get_shared_data engine codec (perform_all platform then_paused empty_db) (ok (at 9)) (pos 7)
    ≡ ok stopped
unfolding get_shared_data perform_all perform save pause query_save query_pause insert_interaction
    trigger latest order_by insert_by filter any byte_len query_interactions_for_replay
    to_domain_interactions to_domain_interaction build_shared_data replay_from step on_action
    on_saved on_paused extended compute_valid seconds wrap64 ◌+ℤ◌
is_stopped = refl

saves :
    (save engine codec
      (ok (at 3))
      (perform_all platform saved_once empty_db)
      (pos 7)
      (pos 3)
      (pos 2)).0
    ≡ ok tt
unfolding perform_all perform save query_save insert_interaction trigger latest order_by insert_by
    filter any byte_len
saves = refl

pauses :
    (pause engine codec (ok (at 3)) (perform_all platform saved_once empty_db) (pos 7) (pos 3)).0
    ≡ ok tt
unfolding perform_all perform save pause query_save query_pause insert_interaction trigger latest
    order_by insert_by filter any byte_len
pauses = refl

resumes :
    (resume engine codec (ok (at 9)) (perform_all platform then_paused empty_db) (pos 7) (pos 3)).0
    ≡ ok tt
unfolding perform_all perform save pause resume query_save query_pause query_resume
    insert_interaction trigger latest order_by insert_by filter any byte_len
resumes = refl

save_visible_example :
    (d' : SharedData) × (get_shared_data engine codec
        (save engine codec
          (ok (at 3))
          (perform_all platform saved_once empty_db)
          (pos 7)
          (pos 3)
          (pos 2)).1
        (ok (at 6))
        (pos 7)
      ≡ ok d')
    × (d'.status ≡ playing)
    × (d'.last_saved_at ≡ some (floor_second (at 3)))
    × (d'.deadline_at
        ≡ some (add (deadline_or (some (at 5)) (floor_second (at 3))) (seconds (pos 2))))
save_visible_example =
    save_visible platform engine-IsSqlite codec-IsCodec saved_once (pos 7) (pos 3) (at 3) (at 3)
      (at 6) running (ground arith) (ground arith) refl is_running (pos 2) saves

pause_visible_example :
    (d' : SharedData) × (get_shared_data engine codec
        (pause engine codec
          (ok (at 3))
          (perform_all platform saved_once empty_db)
          (pos 7)
          (pos 3)).1
        (ok (at 9))
        (pos 7)
      ≡ ok d')
    × (playing ≡ playing)
    × (d'.status ≡ paused)
    × (d'.last_paused_at ≡ some (floor_second (at 3)))
    × (d'.deadline_at ≡ some (at 5))
pause_visible_example =
    pause_visible platform engine-IsSqlite codec-IsCodec saved_once (pos 7) (pos 3) (at 3) (at 3)
      (at 9) running (ground arith) (ground arith) refl is_running pauses

resume_visible_example :
    (d' : SharedData) × (get_shared_data engine codec
        (resume engine codec
          (ok (at 9))
          (perform_all platform then_paused empty_db)
          (pos 7)
          (pos 3)).1
        (ok (at 10))
        (pos 7)
      ≡ ok d')
    × (paused ≡ paused)
    × (d'.status ≡ playing)
    × (d'.deadline_at ≡ some (add (at 5) (sub (floor_second (at 9)) (at 3))))
resume_visible_example =
    resume_visible platform engine-IsSqlite codec-IsCodec then_paused (pos 7) (pos 3) (at 9) (at 9)
      (at 10) stopped (ground arith) (ground arith) refl is_stopped (at 3) (at 5) refl refl resumes

readers_agree_example :
    (log : List Interaction) × (to_domain_interactions codec
        (filter (of_game (pos 7)) (perform_all platform then_paused empty_db).interactions)
      ≡ ok log)
    × (first engine codec (perform_all platform then_paused empty_db) (pos 7) ≡ ok (first_of log))
    × (last engine codec (perform_all platform then_paused empty_db) (pos 7)
        ≡ ok (first_of (reverse log)))
    × (list_interactions engine codec
          (perform_all platform then_paused empty_db)
          (pos 7)
          (pos 1)
          (pos 1)
        ≡ ok (take 1 (drop 1 (reverse log))))
readers_agree_example =
    readers_agree platform engine-IsSqlite codec-IsCodec then_paused (pos 7) 1 1 (ground arith)
      (ground arith) refl refl refl
