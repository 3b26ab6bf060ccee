-- ===== src/Http.antt =====
-- internal/infrastructure/driver/httpadapter/models.go, and the request, the response and the
-- helpers of handlers.go.
--
-- Echo parses the request and writes the response: a request holds what `QueryParam`,
-- `Header.Get` and `Bind` answer for it, and a response its status, its body's text and the cookie
-- that is set. A handler's error is what Echo's error handler is given. `encoding/json` is a
-- parameter, which may fail; the log is left out.
pub mod Query
pub mod Handlers
pub mod Serve
pub mod Access
pub mod Authorised
pub mod Session
pub mod Adapter
pub mod Answers
pub mod Shown
use keep_it_up.Prelude.{
  ℤ, pos, Bool, true, false, Option, none, some, List, [], ◌∷◌, String, map, ltb_ℤ, if◌then◌else◌,
  Result, ok, err,
}
use keep_it_up.Time.{Time}
use keep_it_up.Stamp.{Codec}
use keep_it_up.Model.{Game, Player, Status, Interaction}
use keep_it_up.Usecase.{
  Error, bad_request, unauthorized, check_failed, cannot_save_while_paused, cannot_pause,
  cannot_resume,
}

pub record GameDto : Type 0 where
  pub id : ℤ
  pub name : String

pub record SharedDataDto : Type 0 where
  pub game_id : ℤ
  pub status : Status
  pub valid : Option Bool
  pub deadline_at : Option Time
  pub last_saved_at : Option Time
  pub last_paused_at : Option Time

pub record InteractionDto : Type 0 where
  pub id : ℤ
  pub game_id : ℤ
  pub player_id : Option ℤ
  pub action : String
  pub occurred_at : String
  pub saved_by : Option ℤ

-- What is written as JSON.
pub data Json : Type 0 where
  message : String → Json
  games : List GameDto → Json
  shared : SharedDataDto → Json
  interactions : List InteractionDto → Json
  interaction : Option InteractionDto → Json

-- `JwtClaims` of internal/infrastructure/driven/jwt_token_generator.go
pub record JwtClaims : Type 0 where
  pub expires_at : Option Time
  pub user_id : ℤ
  pub username : String

-- What `c.Get("user")` holds: no token, a token with other claims, one with the adapter's.
pub data User : Type 0 where
  no_token other_claims : User
  token : JwtClaims → User

pub record HttpRequest : Type 0 where
  pub query_param : String → String
  pub header : String → String
  pub session : Option String
  pub login_body : Result String (String × String)
  pub save_body : Result String ℤ

-- The cookie's name and its other attributes are constants.
pub record Cookie : Type 0 where
  pub value : String
  pub expires : Time

pub record Response : Type 0 where
  pub status : ℤ
  pub body : String
  pub cookie : Option Cookie

abbrev pub Handled : Type 0
Handled = Result String Response

-- `HTTPAdapter`, with the token generator of its `Auth` port and the encoder of `ctx.JSON`.
pub record HttpAdapter : Type 0 where
  pub generate_token : Player → Result String String
  pub tp : Option (Result String Time)
  pub session_lifetime : ℤ
  pub default_interactions_limit : ℤ
  pub encode : Json → Result String String

-- `interactionDTOFrom`, and the body of the loop of `toInteractionDTOs`
abbrev pub interaction_dto : Codec → Interaction → InteractionDto
interaction_dto c i = record {
  id = i.id;
  game_id = i.game_id;
  player_id = i.player_id;
  action = i.action;
  occurred_at = c.format i.occurred_at;
  saved_by = i.saved_by;
}

-- `toInteractionDTOs`
abbrev pub interaction_dtos : Codec → List Interaction → List InteractionDto
interaction_dtos c is = map (interaction_dto c) is

-- `interactionDTOFrom`
abbrev pub interaction_dto_from : Codec → Option Interaction → Option InteractionDto
interaction_dto_from c none = none
interaction_dto_from c (some i) = some (interaction_dto c i)

abbrev pub game_dtos : List Game → List GameDto
game_dtos gs = map (λ (g : Game). let d : GameDto = record { id = g.id; name = g.name } in d) gs

-- `ctx.NoContent`
abbrev pub no_content : ℤ → Handled
no_content status = ok (record { status = status; body = ""; cookie = none })

-- A body that has been encoded, or the encoder's error.
abbrev pub written : ℤ → Result String String → Handled
written status (ok s) = ok (record { status = status; body = s; cookie = none })
written status (err e) = err e

-- `ctx.JSON`
abbrev pub json : HttpAdapter → ℤ → Json → Handled
json h status j = written status (h.encode j)

module _ (h : HttpAdapter) where
  -- `errorJSON`
  abbrev pub error_json : ℤ → String → Handled
  error_json status text = json h status (message text)

  -- `badRequest`
  abbrev pub bad_request_with : String → Handled
  bad_request_with text = error_json (pos 400) text

  -- `unauthorised`
  abbrev pub unauthorised : String → Handled
  unauthorised text = error_json (pos 401) text

  -- `notFound`
  abbrev pub not_found : String → Handled
  not_found text = error_json (pos 404) text

  -- `internal`
  abbrev pub internal : Handled
  internal = error_json (pos 500) "Something went wrong!"

-- `errors.Is(err, usecase.ErrBadRequest)`, through the errors that wrap another.
abbrev pub is_bad_request : Error → Bool
is_bad_request bad_request = true
is_bad_request (check_failed e) = is_bad_request e
is_bad_request _ = false

-- `errors.Is(err, usecase.ErrUnauthorized)`
abbrev pub is_unauthorized : Error → Bool
is_unauthorized unauthorized = true
is_unauthorized (check_failed e) = is_unauthorized e
is_unauthorized _ = false

-- The three errors of the state machine that `commandError` looks for.
abbrev pub is_conflict : Error → Bool
is_conflict cannot_save_while_paused = true
is_conflict cannot_pause = true
is_conflict cannot_resume = true
is_conflict (check_failed e) = is_conflict e
is_conflict _ = false

-- `commandError`
abbrev pub command_error : HttpAdapter → Error → String → Handled
command_error h e conflict_msg =
    if is_conflict e then error_json h (pos 409) conflict_msg else internal h

-- `playerID`
abbrev pub player_id : User → Option ℤ
player_id no_token = none
player_id other_claims = none
player_id (token claims) = if ltb_ℤ claims.user_id (pos 1) then none else some claims.user_id
