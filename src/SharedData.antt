-- ===== src/SharedData.antt =====
-- internal/core/service/shared_data.go: the state of a game, replayed from its interactions.
--
-- `BuildSharedData` is `build_shared_data`: its loop is `replay_from`, one round of it `step`, and
-- the cases of its `switch` are `on_saved`, `on_paused` and `on_resumed`. A pointer that is
-- followed while nil is the error `panicked`. `&ia.OccurredAt` points to the round's own variable
-- (Go 1.22 and later), so each pointer keeps its value.
pub mod Shape
pub mod Moves
pub mod Language
pub mod Append
pub mod Deadline
pub mod Overflow
pub mod Validity
use keep_it_up.Prelude.{
  ℤ, pos, Bool, true, false, Option, none, some, List, [], ◌∷◌, String, str_eq, ◌&&◌, not, leb_ℤ,
  ◌==ℤ◌, if◌then◌else◌, Result, ok, err, ◌>>=◌,
}
use keep_it_up.Time.{Time, Duration, zero_time, is_zero, before, after, add, sub, seconds}
use keep_it_up.Model.{Status, not_started, playing, paused, Interaction, SharedData}

-- The errors, with the values that their messages print.
pub data BuildError : Type 0 where
  wrong_game : ℤ → ℤ → ℤ → BuildError
  out_of_order : ℤ → BuildError
  save_while_paused : ℤ → BuildError
  invalid_saved_by : ℤ → BuildError
  cannot_pause : ℤ → Status → BuildError
  cannot_resume : ℤ → Status → BuildError
  unknown_action : ℤ → String → BuildError
  panicked : BuildError

abbrev pub is_playing : Status → Bool
is_playing playing = true
is_playing _ = false

abbrev pub is_paused : Status → Bool
is_paused paused = true
is_paused _ = false

abbrev pub is_not_started : Status → Bool
is_not_started not_started = true
is_not_started _ = false

-- `*p`
abbrev pub deref : {A : Type 0} → Option A → Result BuildError A
deref none = err panicked
deref (some a) = ok a

-- The last four conditions of the test for a frozen clock.
abbrev pub paused_in_time : Option Time → Option Time → Time → Bool
paused_in_time none saved deadline = false
paused_in_time (some p) none deadline = false
paused_in_time (some p) (some s) deadline = before p deadline && after p s

abbrev valid_at : SharedData → Time → Option Time → Option Bool
valid_at s now none = none
valid_at s now (some deadline) =
    if is_paused s.status && paused_in_time s.last_paused_at s.last_saved_at deadline
    then some true
    else some (before now deadline)

-- `ComputeValid`
unfoldable pub compute_valid : SharedData → Time → SharedData
compute_valid s now = record s { valid = valid_at s now s.deadline_at }

-- The deadline after a save: counted from the save that starts the game, and from the deadline
-- later on.
unfoldable pub extended : SharedData → Interaction → Duration → Result BuildError SharedData
extended data' ia extension =
    if is_not_started data'.status
    then ok (record data' {
      deadline_at = some (add ia.occurred_at extension);
      status = playing;
      last_saved_at = some ia.occurred_at;
    })
    else do
      deadline ← deref data'.deadline_at
      ok (record data' {
        deadline_at = some (add deadline extension);
        last_saved_at = some ia.occurred_at;
      })

-- `ia.SavedBy == nil || *ia.SavedBy <= 0`
abbrev pub checked_saved_by : Interaction → Result BuildError ℤ
checked_saved_by ia = elim ia.saved_by [
  | none ↦ err (invalid_saved_by ia.id)
  | some s ↦ if leb_ℤ s (pos 0) then err (invalid_saved_by ia.id) else ok s
]

-- `case "saved"`
unfoldable pub on_saved : SharedData → Interaction → Result BuildError SharedData
unfolding extended
on_saved data' ia =
    if is_paused data'.status
    then err (save_while_paused ia.id)
    else do s ← checked_saved_by ia; extended data' ia (seconds s)

-- `case "paused"`
unfoldable pub on_paused : SharedData → Interaction → Result BuildError SharedData
on_paused data' ia =
    if is_playing data'.status
    then ok (record data' { status = paused; last_paused_at = some ia.occurred_at })
    else err (cannot_pause ia.id data'.status)

-- `case "resumed"`
unfoldable pub on_resumed : SharedData → Interaction → Result BuildError SharedData
on_resumed data' ia =
    if is_paused data'.status
    then (do
      deadline ← deref data'.deadline_at
      since ← deref data'.last_paused_at
      ok (record data' {
        deadline_at = some (add deadline (sub ia.occurred_at since));
        status = playing;
        last_paused_at = none;
      }))
    else err (cannot_resume ia.id data'.status)

-- the `switch`
unfoldable pub on_action : SharedData → Interaction → Result BuildError SharedData
unfolding on_saved on_paused on_resumed
on_action data' ia =
    if str_eq ia.action "saved"
    then on_saved data' ia
    else if str_eq ia.action "paused"
    then on_paused data' ia
    else if str_eq ia.action "resumed"
    then on_resumed data' ia
    else err (unknown_action ia.id ia.action)

-- One round of the loop, after a round whose interaction occurred at `prev`.
unfoldable pub step : SharedData → Time → Interaction → Result BuildError SharedData
unfolding on_action
step data' prev ia =
    if not (ia.game_id ==ℤ data'.game_id)
    then err (wrong_game ia.id ia.game_id data'.game_id)
    else if not (is_zero prev) && before ia.occurred_at prev
    then err (out_of_order ia.id)
    else on_action data' ia

unfoldable pub replay_from : SharedData → Time → List Interaction → Result BuildError SharedData
replay_from data' prev [] = ok data'
replay_from data' prev (ia ∷ rest) = do
  next ← step data' prev ia
  replay_from next ia.occurred_at rest

abbrev pub fresh : ℤ → SharedData
fresh game_id = record {
  game_id = game_id;
  valid = none;
  status = not_started;
  deadline_at = none;
  last_saved_at = none;
  last_paused_at = none;
}

-- `BuildSharedData`
unfoldable pub build_shared_data : ℤ → List Interaction → Time → Result BuildError SharedData
unfolding compute_valid
build_shared_data game_id [] now = ok (fresh game_id)
build_shared_data game_id (ia ∷ rest) now = do
  data' ← replay_from (fresh game_id) zero_time (ia ∷ rest)
  ok (compute_valid data' now)
