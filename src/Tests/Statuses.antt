-- ===== src/Tests/Statuses.antt =====
-- The answers to the player of a game that is being played.
use keep_it_up.Prelude.{
  ◌+ℤ◌, pos, none, List, [], ◌∷◌, String, ok, ◌≡◌, ◌≢◌, refl, arith, filter, any,
}
use keep_it_up.Number.{parse_int, digits}
use keep_it_up.Time.{seconds, wrap64}
use keep_it_up.Text.{byte_len}
use keep_it_up.Model.{playing, paused}
use keep_it_up.SharedData.{
  build_shared_data, replay_from, step, on_action, on_saved, extended, compute_valid,
}
use keep_it_up.Mapping.{to_domain_interaction, to_domain_interactions}
use keep_it_up.Db.{Db, empty_db}
use keep_it_up.Db.Sort.{order_by, insert_by}
use keep_it_up.Db.Trigger.{latest, trigger}
use keep_it_up.Db.Access.{query_grant_access, query_check_access}
use keep_it_up.Db.Commands.{insert_interaction, query_save}
use keep_it_up.Db.Fetching.{query_interactions_for_replay}
use keep_it_up.Usecase.AccessManagement.{grant, check}
use keep_it_up.Usecase.GameCommands.{save, pause, resume}
use keep_it_up.Usecase.GameCommands.Refusals.{IsTimely}
use keep_it_up.Usecase.GameCommands.Accepted.{IsAdmitted}
use keep_it_up.Usecase.DataFetching.{get_shared_data}
use keep_it_up.Requests.{Request, save_game, grant_access, Faults, perform, perform_all}
use keep_it_up.Http.{no_content, error_json}
use keep_it_up.Http.Query.{game_id_from_query}
use keep_it_up.Http.Handlers.{Answer, handle_save, handle_pause, handle_resume}
use keep_it_up.Http.Answers.{IsGranted, AreUp, status-decides}
use keep_it_up.Tests.Engine.{engine, engine-IsSqlite, codec, codec-IsCodec}
use keep_it_up.Tests.Games.{at}
use keep_it_up.Tests.Commands.{platform}
use keep_it_up.Tests.Histories.{running}
use keep_it_up.Tests.Server.{adapter, ana, save_request}

-- The player 3 has access to the game 7, and has saved it.
abbrev history : List (Faults × Request)
history =
    (λ name. none, grant_access (pos 7) (pos 3))
    ∷ (λ name. none, save_game (ok (at 1)) (pos 7) (pos 3) (pos 4))
    ∷ []

abbrev db : Db
db = perform_all platform history empty_db

shown : get_shared_data engine codec db (ok (at 2)) (pos 7) ≡ ok running
unfolding get_shared_data perform_all perform grant query_grant_access save query_save
    insert_interaction trigger latest order_by insert_by filter any byte_len
    query_interactions_for_replay to_domain_interactions to_domain_interaction build_shared_data
    replay_from step on_action on_saved extended compute_valid seconds wrap64 ◌+ℤ◌
shown = refl

timely : IsTimely engine codec db (at 5) (pos 7) (pos 3)
unfolding perform_all perform grant query_grant_access save query_save insert_interaction trigger
    latest order_by insert_by filter any byte_len
timely = record { game = ground arith; player = ground arith; in_order = refl }

admitted : IsAdmitted engine codec db (at 5) (pos 7) (pos 3)
admitted = record { iso = refl; references = refl }

up : AreUp platform
up = record { save_up = refl; pause_up = refl; resume_up = refl }

granted : IsGranted platform db ana save_request (pos 7) (pos 3)
unfolding perform_all perform grant query_grant_access save query_save insert_interaction trigger
    latest order_by insert_by filter any byte_len check query_check_access parse_int digits
    game_id_from_query
granted = record { names = refl; player = refl; access = refl }

abbrev conflict : String → Answer
conflict text = (error_json adapter (pos 409) text, db)

status-decides_example :
    ((playing ≢ paused
        → handle_save platform adapter (ok (at 5)) db ana save_request
          ≡ (no_content (pos 204), (save engine codec (ok (at 5)) db (pos 7) (pos 3) (pos 60)).1))
      × (playing ≡ paused
          → handle_save platform adapter (ok (at 5)) db ana save_request
            ≡ conflict "Game is not currently playing"))
    × ((playing ≡ playing
          → handle_pause platform adapter (ok (at 5)) db ana save_request
            ≡ (no_content (pos 204), (pause engine codec (ok (at 5)) db (pos 7) (pos 3)).1))
        × (playing ≢ playing
            → handle_pause platform adapter (ok (at 5)) db ana save_request
              ≡ conflict "Game is not currently playing"))
    × ((playing ≡ paused
          → handle_resume platform adapter (ok (at 5)) db ana save_request
            ≡ (no_content (pos 204), (resume engine codec (ok (at 5)) db (pos 7) (pos 3)).1))
        × (playing ≢ paused
            → handle_resume platform adapter (ok (at 5)) db ana save_request
              ≡ conflict "Game is not currently paused"))
status-decides_example =
    status-decides platform engine-IsSqlite codec-IsCodec history (pos 7) (pos 3) (at 5) (at 2)
      running (ground arith) refl shown timely admitted up adapter ana save_request granted (pos 60)
      refl (ground arith)
