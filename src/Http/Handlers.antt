-- ===== src/Http/Handlers.antt =====
-- internal/infrastructure/driver/httpadapter/handlers.go: the handlers.
use keep_it_up.Prelude.{
  ℤ, pos, Bool, true, false, Option, none, some, List, String, ltb_ℤ, if◌then◌else◌, Result, ok,
  err,
}
use keep_it_up.Time.{add}
use keep_it_up.Model.{Game, SharedData, Interaction, AuthResult}
use keep_it_up.Db.{Db}
use keep_it_up.Usecase.{Error, Clock, Action}
use keep_it_up.Usecase.AccessManagement.{check}
use keep_it_up.Usecase.Authentication.{login_player}
use keep_it_up.Usecase.DataFetching.{
  list_games, get_shared_data, list_interactions, list_own_interactions, first, last,
}
use keep_it_up.Usecase.GameCommands.{save, pause, resume}
use keep_it_up.Requests.{Platform}
use keep_it_up.Http.{
  User, HttpRequest, HttpAdapter, Handled, json, games, shared, interactions, interaction,
  no_content, bad_request_with, unauthorised, not_found, internal, is_bad_request, is_unauthorized,
  command_error, player_id, interaction_dtos, interaction_dto_from, game_dtos,
}
use keep_it_up.Http.Query.{
  Selector, query_all, query_player, query_first, query_last, game_id_from_query,
  interactions_limit, interactions_offset, query_selector,
}

abbrev pub Answer : Type 0
Answer = Handled × Db

-- The rest of a handler behind a value, without which it answers and returns.
abbrev pub given : {A B : Type 0} → B → Option A → (A → B) → B
given missing none rest = missing
given missing (some a) rest = rest a

module _ (p : Platform) (h : HttpAdapter) (clock : Clock) (db : Db) where
  -- The part of `handleLogin` after the player is logged in.
  abbrev pub set_cookie : AuthResult → Option Clock → Handled
  set_cookie res none = internal h
  set_cookie res (some (err e)) = internal h
  set_cookie res (some (ok now)) = ok (record {
    status = pos 204;
    body = "";
    cookie = some (record { value = res.token; expires = add now h.session_lifetime });
  })

  abbrev pub logged_in : Result Error AuthResult → Handled
  logged_in (ok res) = set_cookie res h.tp
  logged_in (err e) =
      if is_bad_request e
      then bad_request_with h "Missing username or password"
      else if is_unauthorized e
      then unauthorised h "Incorrect username or password"
      else internal h

  -- `handleLogin`
  unfoldable pub handle_login : HttpRequest → Handled
  handle_login r = elim r.login_body [
    | err e ↦ bad_request_with h "Missing username or password"
    | ok (username, password) ↦
        logged_in (login_player p.sqlite p.bcrypt db h.generate_token username password)
  ]

  abbrev pub listed_games : Result Error (List Game) → Handled
  listed_games (ok gs) = json h (pos 200) (games (game_dtos gs))
  listed_games (err e) = internal h

  -- `handleListGames`
  unfoldable pub handle_list_games : User → Handled
  handle_list_games user =
      given (unauthorised h "Authentication required") (player_id user)
        λ id. listed_games (list_games p.sqlite p.codec db id)

  abbrev pub granted_or : {A : Type 0} → (Handled → A) → A → Result Error Bool → A
  granted_or deny rest (ok true) = rest
  granted_or deny rest (ok false) = deny (not_found h "Game not found or inaccessible")
  granted_or deny rest (err e) = deny (internal h)

  -- `accessChecked`, in front of the rest of a handler.
  unfoldable pub access_checked :
      {A : Type 0} → User → HttpRequest → (Handled → A) → (ℤ → ℤ → A) → A
  access_checked user r deny rest =
      given (deny (bad_request_with h "Invalid gameId")) (game_id_from_query r) λ game_id.
        given (deny (unauthorised h "Authentication required")) (player_id user)
          λ id. granted_or deny (rest game_id id) (check p.sqlite db game_id id)

  abbrev pub denied : Handled → Answer
  denied a = (a, db)

  abbrev pub fetched_shared : Result Error SharedData → Handled
  fetched_shared (ok s) = json h (pos 200) (
      shared (record {
        game_id = s.game_id;
        status = s.status;
        valid = s.valid;
        deadline_at = s.deadline_at;
        last_saved_at = s.last_saved_at;
        last_paused_at = s.last_paused_at;
      }))
  fetched_shared (err e) = internal h

  -- `handleGetShared`
  unfoldable pub handle_get_shared : User → HttpRequest → Handled
  unfolding access_checked
  handle_get_shared user r =
      access_checked user r (λ a. a)
        λ game_id _. fetched_shared (get_shared_data p.sqlite p.codec db clock game_id)

  abbrev pub commanded : String → Action Unit → Answer
  commanded conflict_msg (ok _, db') = (no_content (pos 204), db')
  commanded conflict_msg (err e, db') = (command_error h e conflict_msg, db')

  -- `handleSave` behind the access check
  abbrev pub save_for : ℤ → ℤ → Result String ℤ → Answer
  save_for game_id id (err e) = denied (bad_request_with h "Invalid request body")
  save_for game_id id (ok duration) =
      if ltb_ℤ duration (pos 1)
      then denied (bad_request_with h "duration must be >= 1")
      else commanded "Game is not currently playing"
          (save p.sqlite p.codec clock db game_id id duration)

  -- `handleSave`
  unfoldable pub handle_save : User → HttpRequest → Answer
  unfolding access_checked
  handle_save user r = access_checked user r denied (λ game_id id. save_for game_id id r.save_body)

  -- `handleResume`
  unfoldable pub handle_resume : User → HttpRequest → Answer
  unfolding access_checked
  handle_resume user r = access_checked user r denied λ game_id id.
      commanded "Game is not currently paused" (resume p.sqlite p.codec clock db game_id id)

  -- `handlePause`
  unfoldable pub handle_pause : User → HttpRequest → Answer
  unfolding access_checked
  handle_pause user r = access_checked user r denied λ game_id id.
      commanded "Game is not currently playing" (pause p.sqlite p.codec clock db game_id id)

  abbrev pub listed : Result Error (List Interaction) → Handled
  listed (ok is) = json h (pos 200) (interactions (interaction_dtos p.codec is))
  listed (err e) = internal h

  abbrev pub fetched : Result Error (Option Interaction) → Handled
  fetched (ok i) = json h (pos 200) (interaction (interaction_dto_from p.codec i))
  fetched (err e) = internal h

  -- The `switch` of `handleListInteractions`
  abbrev pub selected : Selector → ℤ → ℤ → ℤ → ℤ → Handled
  selected query_all limit offset game_id id =
      listed (list_interactions p.sqlite p.codec db game_id limit offset)
  selected query_player limit offset game_id id =
      listed (list_own_interactions p.sqlite p.codec db game_id id limit offset)
  selected query_first limit offset game_id id = fetched (first p.sqlite p.codec db game_id)
  selected query_last limit offset game_id id = fetched (last p.sqlite p.codec db game_id)

  -- `handleListInteractions`
  unfoldable pub handle_list_interactions : User → HttpRequest → Handled
  unfolding access_checked
  handle_list_interactions user r =
      given (bad_request_with h "Invalid query") (query_selector r) λ selector.
        given (bad_request_with h "Invalid limit") (interactions_limit h r) λ limit.
          given (bad_request_with h "Invalid offset") (interactions_offset r)
            λ offset. access_checked user r (λ a. a) (selected selector limit offset)
