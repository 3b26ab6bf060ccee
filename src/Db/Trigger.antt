-- ===== src/Db/Trigger.antt =====
-- `trg_interactions_state_machine` (database/migrations): what a new interaction is checked against
-- before it is inserted, and the order of a game's interactions.
use keep_it_up.Prelude.{
  ℤ, Bool, false, Option, none, some, List, [], ◌∷◌, String, str_eq, ◌&&◌, ◌||◌, not, filter, any,
  ltb_ℤ, ◌==ℤ◌, if◌then◌else◌,
}
use keep_it_up.Db.Sort.{order_by}
use keep_it_up.Db.{
  Sqlite, InteractionRow, Abort, precedes, save_while_paused, pause_not_playing, resume_not_paused,
}

-- `WHERE game_id = ?`
abbrev pub of_game : ℤ → InteractionRow → Bool
of_game game_id r = r.game_id ==ℤ game_id

-- `ORDER BY occurred_at ASC, id ASC`
abbrev pub earlier : Sqlite → InteractionRow → InteractionRow → Bool
earlier q a b =
    q.text_before a.occurred_at b.occurred_at
    || (not (q.text_before b.occurred_at a.occurred_at) && ltb_ℤ a.id b.id)

-- `ORDER BY occurred_at DESC, id DESC`
abbrev pub later : Sqlite → InteractionRow → InteractionRow → Bool
later q a b = earlier q b a

abbrev pub first_row : List InteractionRow → Option InteractionRow
first_row [] = none
first_row (r ∷ rest) = some r

-- `SELECT … WHERE game_id = ? ORDER BY occurred_at DESC, id DESC LIMIT 1`
unfoldable pub latest : Sqlite → List InteractionRow → ℤ → Option InteractionRow
latest q rows game_id = first_row (order_by (later q) (filter (of_game game_id) rows))

-- `action = …` of a row that may be missing: a comparison with NULL is not true.
abbrev pub acted : Option InteractionRow → String → Bool
acted none action = false
acted (some r) action = str_eq r.action action

-- The trigger's statements in their order; `none` lets the row through. With no row, `COALESCE`
-- gives 'none', which is none of the actions.
unfoldable pub trigger : Sqlite → List InteractionRow → ℤ → String → String → Option Abort
trigger q rows game_id action occurred_at =
    let last = latest q rows game_id in
    if any (λ r. of_game game_id r && q.text_before occurred_at r.occurred_at) rows
    then some precedes
    else if str_eq action "saved" && acted last "paused"
    then some save_while_paused
    else if str_eq action "paused" && not (acted last "saved" || acted last "resumed")
    then some pause_not_playing
    else if str_eq action "resumed" && not (acted last "paused")
    then some resume_not_paused
    else none
