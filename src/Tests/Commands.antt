-- ===== src/Tests/Commands.antt =====
-- Commands on a small database, and a history of calls.
use keep_it_up.Prelude.{
  Bool, ℤ, pos, true, false, ◌&&◌, ◌||◌, not, Option, none, some, List, [], ◌∷◌, String, str_eq,
  if◌then◌else◌, any, filter, ◌≡◌, ◌==ℤ◌, refl, arith, ok, err,
}
use keep_it_up.Model.{SharedData, Game}
use keep_it_up.Text.{byte_len}
use keep_it_up.Db.{GameRow, Db, InteractionRow, empty_db}
use keep_it_up.Db.Sort.{order_by, insert_by}
use keep_it_up.Db.Trigger.{latest, acted}
use keep_it_up.Db.Access.{is_access, query_grant_access, query_revoke_access}
use keep_it_up.Db.Games.{query_delete_game}
use keep_it_up.Usecase.{cannot_save_while_paused, cannot_pause, cannot_resume}
use keep_it_up.Usecase.Authentication.{Bcrypt, matches, mismatch}
use keep_it_up.Usecase.GameCommands.{save, pause, resume}
use keep_it_up.Usecase.GameCommands.Refusals.{IsTimely, save_refused, pause_refused, resume_refused}
use keep_it_up.Usecase.GameManagement.{delete}
use keep_it_up.Usecase.AccessManagement.{grant, revoke, check}
use keep_it_up.Usecase.AccessManagement.Laws.{check-grant, check-revoke, check-delete}
use keep_it_up.Usecase.DataFetching.{get_shared_data, list_games}
use keep_it_up.Usecase.DataFetching.Listing.{list_games-check}
use keep_it_up.Requests.{
  Request, save_game, pause_game, resume_game, delete_game, Platform, Faults, perform_all,
}
use keep_it_up.History.Answers.{replay_always_succeeds}
use keep_it_up.Tests.Engine.{engine, engine-IsSqlite, codec, codec-IsCodec}
use keep_it_up.Tests.Games.{at}

abbrev row : ℤ → String → String → Option ℤ → InteractionRow
row id action occurred_at saved_by = record {
  id = id;
  game_id = pos 7;
  player_id = some (pos 3);
  action = action;
  occurred_at = occurred_at;
  saved_by = saved_by;
}

-- A game that was saved at 1 s, and the same game paused at 3 s.
abbrev pub playing_db : Db
playing_db = record {
  games = record { id = pos 7; name = "tetris" } ∷ [];
  players = [];
  access = record { game_id = pos 7; player_id = pos 3 } ∷ [];
  interactions = row (pos 1) "saved" "a" (some (pos 60)) ∷ [];
}

abbrev paused_db : Db
paused_db = record playing_db {
  interactions = row (pos 1) "saved" "a" (some (pos 60)) ∷ row (pos 2) "paused" "aaa" none ∷ [];
}

playing-IsTimely : IsTimely engine codec playing_db (at 5) (pos 7) (pos 3)
unfolding any byte_len
playing-IsTimely = record { game = ground arith; player = ground arith; in_order = refl }

paused-IsTimely : IsTimely engine codec paused_db (at 5) (pos 7) (pos 3)
unfolding any byte_len
paused-IsTimely = record { game = ground arith; player = ground arith; in_order = refl }

paused_last : acted (latest engine paused_db.interactions (pos 7)) "paused" ≡ true
unfolding latest order_by insert_by filter byte_len
paused_last = refl

not_played_last :
    (acted (latest engine paused_db.interactions (pos 7)) "saved"
      || acted (latest engine paused_db.interactions (pos 7)) "resumed")
    ≡ false
unfolding latest order_by insert_by filter byte_len
not_played_last = refl

not_paused_last : acted (latest engine playing_db.interactions (pos 7)) "paused" ≡ false
unfolding latest order_by insert_by filter byte_len
not_paused_last = refl

save_refused_example :
    save engine codec (ok (at 5)) paused_db (pos 7) (pos 3) (pos 60)
    ≡ (err cannot_save_while_paused, paused_db)
save_refused_example =
    save_refused engine engine-IsSqlite codec paused_db (at 5) (pos 7) (pos 3) paused-IsTimely
      (pos 60) (ground arith) refl paused_last

pause_refused_example :
    pause engine codec (ok (at 5)) paused_db (pos 7) (pos 3) ≡ (err cannot_pause, paused_db)
pause_refused_example =
    pause_refused engine engine-IsSqlite codec paused_db (at 5) (pos 7) (pos 3) paused-IsTimely refl
      not_played_last

resume_refused_example :
    resume engine codec (ok (at 5)) playing_db (pos 7) (pos 3) ≡ (err cannot_resume, playing_db)
resume_refused_example =
    resume_refused engine engine-IsSqlite codec playing_db (at 5) (pos 7) (pos 3) playing-IsTimely
      refl not_paused_last

granted : (grant engine playing_db (pos 7) (pos 4)).0 ≡ ok tt
unfolding grant query_grant_access any
granted = refl

check-grant_example :
    check engine (grant engine playing_db (pos 7) (pos 4)).1 (pos 7) (pos 4)
    ≡ ok (any (is_access (pos 7) (pos 4)) playing_db.access || (pos 7 ==ℤ pos 7 && pos 4 ==ℤ pos 4))
check-grant_example =
    check-grant engine playing_db (pos 7) (pos 4) (pos 7) (pos 4) (ground arith) (ground arith) refl
      granted

revoked : (revoke engine playing_db (pos 7) (pos 3)).0 ≡ ok tt
unfolding revoke query_revoke_access
revoked = refl

check-revoke_example :
    check engine (revoke engine playing_db (pos 7) (pos 3)).1 (pos 7) (pos 3)
    ≡ ok (
        any (is_access (pos 7) (pos 3)) playing_db.access
        && not (pos 7 ==ℤ pos 7 && pos 3 ==ℤ pos 3))
check-revoke_example =
    check-revoke engine playing_db (pos 7) (pos 3) (pos 7) (pos 3) (ground arith) (ground arith)
      refl revoked

deleted : (delete engine playing_db (pos 7)).0 ≡ ok tt
unfolding delete query_delete_game
deleted = refl

check-delete_example :
    check engine (delete engine playing_db (pos 7)).1 (pos 7) (pos 3)
    ≡ ok (any (is_access (pos 7) (pos 3)) playing_db.access && not (false && pos 7 ==ℤ pos 7))
check-delete_example =
    check-delete engine playing_db (pos 7) (pos 3) (pos 7) (pos 0) (ground arith) (ground arith)
      refl deleted

abbrev pub bcrypt : Bcrypt
bcrypt = record { generate = λ p. ok p; compare = λ h p. if str_eq h p then matches else mismatch }

abbrev pub platform : Platform
platform = record {
  sqlite = engine;
  codec = codec;
  bcrypt = bcrypt;
  is_letter = λ c. true;
  is_digit = λ c. false;
}

abbrev history : List (Faults × Request)
history =
    (λ name. none, save_game (ok (at 100)) (pos 7) (pos 3) (pos 60))
    ∷ (λ name. none, pause_game (ok (at 130)) (pos 7) (pos 3))
    ∷ (λ name. some "disk I/O error", save_game (ok (at 131)) (pos 7) (pos 3) (pos 60))
    ∷ (λ name. none, save_game (ok (at 140)) (pos 7) (pos 3) (pos 60))
    ∷ (λ name. none, resume_game (ok (at 120)) (pos 7) (pos 3))
    ∷ (λ name. none, resume_game (ok (at 150)) (pos 7) (pos 3))
    ∷ (λ name. none, delete_game (pos 8))
    ∷ []

replay_always_succeeds_example :
    (d : SharedData) × (get_shared_data engine codec
        (perform_all platform history empty_db)
        (ok (at 200))
        (pos 7)
      ≡ ok d)
replay_always_succeeds_example =
    replay_always_succeeds platform engine-IsSqlite codec-IsCodec history (pos 7) (at 200)
      (ground arith) (ground arith) refl

list_games-check_example :
    (games : List Game) × (answer : Bool) × (list_games engine codec playing_db (pos 3) ≡ ok games)
    × (check engine playing_db (pos 7) (pos 3) ≡ ok answer)
    × (any (λ (x : Game). x.id ==ℤ pos 7) games
        ≡ (any (λ (x : GameRow). x.id ==ℤ pos 7) playing_db.games && answer))
list_games-check_example =
    list_games-check (pos 7) (pos 3) engine codec playing_db (ground arith) (ground arith) refl refl
