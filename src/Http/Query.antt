-- ===== src/Http/Query.antt =====
-- internal/infrastructure/driver/httpadapter/handlers.go: the query parameters.
use keep_it_up.Prelude.{ℤ, pos, Option, none, some, str_eq, ltb_ℤ, if◌then◌else◌}
use keep_it_up.Number.{parse_int}
use keep_it_up.Text.{is_empty}
use keep_it_up.Http.{HttpRequest, HttpAdapter}

pub data Selector : Type 0 where
  query_all query_player query_first query_last : Selector

-- `gameIDFromQuery`
unfoldable pub game_id_from_query : HttpRequest → Option ℤ
game_id_from_query r = parse_int (r.query_param "gameId")

abbrev at_least : ℤ → Option ℤ → Option ℤ
at_least low none = none
at_least low (some n) = if ltb_ℤ n low then none else some n

-- `interactionsLimit`
unfoldable pub interactions_limit : HttpAdapter → HttpRequest → Option ℤ
interactions_limit h r =
    if is_empty (r.query_param "limit")
    then some h.default_interactions_limit
    else at_least (pos 1) (parse_int (r.query_param "limit"))

-- `interactionsOffset`
unfoldable pub interactions_offset : HttpRequest → Option ℤ
interactions_offset r =
    if is_empty (r.query_param "offset")
    then some (pos 0)
    else at_least (pos 0) (parse_int (r.query_param "offset"))

-- `querySelector`
unfoldable pub query_selector : HttpRequest → Option Selector
query_selector r =
    if is_empty (r.query_param "query")
    then some query_all
    else if str_eq (r.query_param "query") "all"
    then some query_all
    else if str_eq (r.query_param "query") "player"
    then some query_player
    else if str_eq (r.query_param "query") "first"
    then some query_first
    else if str_eq (r.query_param "query") "last"
    then some query_last
    else none
