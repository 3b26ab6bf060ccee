-- ===== src/Tests/Http.antt =====
-- The adapters in front of a game that is played.
use keep_it_up.Prelude.{String, some, pos, none, List, [], ◌∷◌, ok, ◌≡◌, refl, arith}
use keep_it_up.Model.{SharedData}
use keep_it_up.Db.{empty_db}
use keep_it_up.Usecase.DataFetching.{get_shared_data}
use keep_it_up.Requests.{Request, Faults, save_game, faulty, perform, perform_all}
use keep_it_up.Cli.Run.{run}
use keep_it_up.Cli.Lines.{command_line, run-command_line}
use keep_it_up.Cli.Refines.{Refines}
use keep_it_up.Cli.Refines.Run.{run-Refines}
use keep_it_up.Http.Serve.{post_save, get_shared, serve}
use keep_it_up.Http.Access.{IsAuthorised, without_store}
use keep_it_up.Adapters.Authorised.{serve-IsAuthorised}
use keep_it_up.Http.Handlers.{handle_list_interactions}
use keep_it_up.Http.Shown.{IsShown, handle_list_interactions-IsShown}
use keep_it_up.Idempotency.{idempotency_of}
use keep_it_up.Adapters.{Arrivals, arguments, request, arrive_all}
use keep_it_up.Adapters.History.{Follows, arrive_all-Refines, arrive_all_replays}
use keep_it_up.Adapters.Retries.{IsOnce, retries-IsOnce}
use keep_it_up.Idempotency.Valkey.Contract.{held_by, valkey_store-IsIdempotencyStore}
use keep_it_up.Tests.Idempotency.{save_key, has_key}
use keep_it_up.Tests.Engine.{engine, engine-IsSqlite, codec, codec-IsCodec}
use keep_it_up.Tests.Games.{at}
use keep_it_up.Tests.Commands.{platform, playing_db}
use keep_it_up.Tests.Server.{
  Pairs, holds, server, base64, server-IsValkey, base64-IsBase64, adapter, idempotent, verify,
  save_request, ana,
}

abbrev all_up : Faults
all_up = λ name. none

serve-IsAuthorised_example :
    IsAuthorised platform all_up
      (ok (at 5))
      (verify save_request.session)
      post_save
      save_request
      playing_db
      (without_store (
        serve
          (faulty platform all_up)
          adapter
          verify
          (idempotency_of adapter (some idempotent))
          (ok (at 5))
          post_save
          save_request
          ([], playing_db)))
serve-IsAuthorised_example =
    serve-IsAuthorised platform all_up adapter verify (some idempotent) (ok (at 5)) post_save
      save_request [] playing_db

abbrev save_line : List String
save_line = "command" ∷ "save" ∷ "7" ∷ "3" ∷ "60" ∷ []

run-Refines_example :
    Refines platform all_up
      (ok (at 5))
      playing_db
      save_line
      (run (faulty platform all_up) (ok (at 5)) playing_db save_line)
run-Refines_example = run-Refines platform all_up (ok (at 5)) playing_db save_line

run-command_line_example :
    (run
      (faulty platform all_up)
      (ok (at 5))
      playing_db
      (command_line (save_game (ok (at 5)) (pos 7) (pos 3) (pos 60)))).1
    ≡ perform platform all_up (save_game (ok (at 5)) (pos 7) (pos 3) (pos 60)) playing_db
run-command_line_example =
    run-command_line platform all_up (ok (at 5)) playing_db
      (save_game (ok (at 5)) (pos 7) (pos 3) (pos 60)) (ground arith) refl

-- A save that is sent again with its key, and a pause from the command line.
abbrev arrivals : Arrivals
arrivals =
    (all_up, ok (at 5), request post_save save_request)
    ∷ (all_up, ok (at 6), request post_save save_request)
    ∷ (all_up, ok (at 7), arguments ("command" ∷ "pause" ∷ "7" ∷ "3" ∷ []))
    ∷ []

abbrev none_stored : Pairs
none_stored = []

arrive_all-Refines_example :
    (history : List (Faults × Request)) × Follows platform verify playing_db arrivals history
    × ((arrive_all platform adapter verify (some idempotent) arrivals (none_stored, playing_db)).1
        ≡ perform_all platform history playing_db)
arrive_all-Refines_example =
    arrive_all-Refines platform adapter verify (some idempotent) arrivals none_stored playing_db

arrive_all_replays_example :
    (d : SharedData) × (get_shared_data engine codec
        (arrive_all platform adapter verify (some idempotent) arrivals (none_stored, empty_db)).1
        (ok (at 9))
        (pos 7)
      ≡ ok d)
arrive_all_replays_example =
    arrive_all_replays platform adapter verify (some idempotent) arrivals none_stored (pos 7) (at 9)
      engine-IsSqlite codec-IsCodec (ground arith) (ground arith) refl

handle_list_interactions-IsShown_example :
    IsShown platform adapter playing_db ana save_request
      (handle_list_interactions platform adapter (ok (at 5)) playing_db ana save_request)
handle_list_interactions-IsShown_example =
    handle_list_interactions-IsShown platform adapter (ok (at 5)) playing_db ana save_request

-- A save that is sent three times with its key, and a look at the game between.
abbrev retries : Arrivals
retries =
    (all_up, ok (at 5), request post_save save_request)
    ∷ (all_up, ok (at 6), request get_shared save_request)
    ∷ (all_up, ok (at 7), request post_save save_request)
    ∷ []

retries-IsOnce_example :
    IsOnce platform adapter verify idempotent
      (held_by base64 holds)
      (valkey_store-IsIdempotencyStore server base64 holds server-IsValkey base64-IsBase64)
      save_key
      retries
      playing_db
      (arrive_all platform adapter verify (some idempotent) retries (none_stored, playing_db)).1
retries-IsOnce_example =
    retries-IsOnce platform adapter verify idempotent (held_by base64 holds)
      (valkey_store-IsIdempotencyStore server base64 holds server-IsValkey base64-IsBase64) save_key
      retries none_stored playing_db ((ana, refl, has_key), (tt, ((ana, refl, has_key), tt)))
