-- ===== src/SharedData/Deadline.antt =====
-- internal/core/service/shared_data.go: the sums that describe the deadline of a replayed game.
use keep_it_up.Prelude.{
  ℤ, pos, Option, none, some, List, [], ◌∷◌, String, str_eq, eq_iff, if◌then◌else◌, ◌+ℤ◌, ◌≡◌, inl,
  inr, true, false, ◌∙◌, ap, arith, int_laws, ok, >>=-eq-ok,
}
use keep_it_up.Time.{Time, Duration, zero_time, seconds, sub}
use keep_it_up.Model.{Interaction, SharedData}
use keep_it_up.SharedData.{
  step, on_action, on_paused, on_resumed, extended, replay_from, fresh, build_shared_data,
  compute_valid,
}
use keep_it_up.SharedData.Shape.{IsWellFormed, step-IsWellFormed}
use keep_it_up.SharedData.Moves.{literals_differ, on_action_cases, on_saved_cases, step-Follows}
use keep_it_up.SharedData.Append.{replayed}

abbrev pub saved_for : Option ℤ → Duration
saved_for none = pos 0
saved_for (some s) = seconds s

abbrev pub grant : Interaction → Duration
grant ia = if str_eq ia.action "saved" then saved_for ia.saved_by else pos 0

-- What the saves of a log grant in all.
abbrev pub granted : List Interaction → Duration
granted [] = pos 0
granted (ia ∷ rest) = grant ia +ℤ granted rest

abbrev pub since : Option Time → Time → Duration
since none t = pos 0
since (some p) t = sub t p

abbrev pub pause_span : Option Time → Interaction → Duration
pause_span p ia = if str_eq ia.action "resumed" then since p ia.occurred_at else pos 0

-- The pause that is open after an interaction, if one was open since `p` before it.
abbrev pub open_pause : Option Time → Interaction → Option Time
open_pause p ia =
    if str_eq ia.action "paused"
    then some ia.occurred_at
    else if str_eq ia.action "resumed"
    then none
    else p

-- The lengths of the pauses that a log ends, in all.
abbrev pub paused_time : Option Time → List Interaction → Duration
paused_time p [] = pos 0
paused_time p (ia ∷ rest) = pause_span p ia +ℤ paused_time (open_pause p ia) rest

-- What the three tests say of each action.
saved_tests :
    (a : String)
    → a ≡ "saved"
    → (str_eq a "saved" ≡ true) × (str_eq a "paused" ≡ false) × (str_eq a "resumed" ≡ false)
saved_tests a e =
    ground (arith, eq_iff a "saved", eq_iff a "paused", eq_iff a "resumed", literals_differ)

paused_tests :
    (a : String)
    → a ≡ "paused"
    → (str_eq a "saved" ≡ false) × (str_eq a "paused" ≡ true) × (str_eq a "resumed" ≡ false)
paused_tests a e =
    ground (arith, eq_iff a "saved", eq_iff a "paused", eq_iff a "resumed", literals_differ)

resumed_tests :
    (a : String)
    → a ≡ "resumed"
    → (str_eq a "saved" ≡ false) × (str_eq a "paused" ≡ false) × (str_eq a "resumed" ≡ true)
resumed_tests a e =
    ground (arith, eq_iff a "saved", eq_iff a "paused", eq_iff a "resumed", literals_differ)

+ℤ_zero : (a : ℤ) → a +ℤ pos 0 ≡ a
+ℤ_zero a = omega int_laws

zero_+ℤ : (a : ℤ) → pos 0 +ℤ a ≡ a
zero_+ℤ a = omega int_laws

module _ (d : SharedData) (ia : Interaction) (d' : SharedData) (w : IsWellFormed d) where
  extended-deadline :
      (x : Duration) (t : Time)
      → d.deadline_at ≡ some t
      → extended d ia x ≡ ok d'
      → (d'.deadline_at ≡ some (t +ℤ x)) × (d'.last_paused_at ≡ d.last_paused_at)
  unfolding extended
  extended-deadline x t h e = ground arith

  on_paused-deadline :
      on_paused d ia ≡ ok d'
      → (d'.deadline_at ≡ d.deadline_at) × (d'.last_paused_at ≡ some ia.occurred_at)
  unfolding on_paused
  on_paused-deadline e = ground arith

  on_resumed-deadline :
      (t : Time)
      → d.deadline_at ≡ some t
      → on_resumed d ia ≡ ok d'
      → (d'.deadline_at ≡ some (t +ℤ since d.last_paused_at ia.occurred_at))
        × (d'.last_paused_at ≡ none)
  unfolding on_resumed
  on_resumed-deadline t h e = ground arith

  -- The deadline and the open pause after one interaction of a game that has started.
  on_action-deadline :
      (t : Time)
      → d.deadline_at ≡ some t
      → on_action d ia ≡ ok d'
      → (d'.deadline_at ≡ some (t +ℤ (grant ia +ℤ pause_span d.last_paused_at ia)))
        × (d'.last_paused_at ≡ open_pause d.last_paused_at ia)
  on_action-deadline t h e = elim (on_action_cases d ia d' e) [
    | inl (a, s) ↦
        let (n, p, sb, q, x) = on_saved_cases d ia d' s in
        ground (
          arith,
          saved_tests ia.action a,
          sb,
          +ℤ_zero (seconds n),
          extended-deadline (seconds n) t h x,
        )
    | inr (inl (a, s)) ↦
        ground (arith, paused_tests ia.action a, +ℤ_zero t, +ℤ_zero (pos 0), on_paused-deadline s)
    | inr (inr (a, s)) ↦ ground (
      arith,
      resumed_tests ia.action a,
      zero_+ℤ (since d.last_paused_at ia.occurred_at),
      on_resumed-deadline t h s,
    )
  ]

+ℤ_regroup : (t a b x y : ℤ) → t +ℤ (a +ℤ b) +ℤ x +ℤ y ≡ t +ℤ (a +ℤ x) +ℤ (b +ℤ y)
+ℤ_regroup t a b x y = omega int_laws

+ℤ_zero_twice : (t : ℤ) → t +ℤ pos 0 +ℤ pos 0 ≡ t
+ℤ_zero_twice t = omega int_laws

pub replay_from-deadline :
    (d : SharedData) (prev : Time) (l : List Interaction) (d' : SharedData) (t : Time)
    → IsWellFormed d
    → d.deadline_at ≡ some t
    → replay_from d prev l ≡ ok d'
    → d'.deadline_at ≡ some (t +ℤ granted l +ℤ paused_time d.last_paused_at l)
unfolding replay_from
replay_from-deadline d prev [] d' t w h e = ground (arith, +ℤ_zero_twice t)
replay_from-deadline d prev (ia ∷ rest) d' t w h e =
    let (next, first, later) = >>=-eq-ok (step d prev ia) _ e in
    let (dl, since') = on_action-deadline d ia next w t h (step-Follows d prev ia next first).1 in
    let ih =
      replay_from-deadline next ia.occurred_at rest d' _ (step-IsWellFormed d prev ia next w first)
        dl later in
    ih
    ∙ rw since' (
        ap some (
          +ℤ_regroup t (grant ia) (pause_span d.last_paused_at ia) (granted rest)
            (paused_time (open_pause d.last_paused_at ia) rest)))

-- The interaction that starts a game.
on_action-first :
    (game_id : ℤ) (ia : Interaction) (d' : SharedData)
    → on_action (fresh game_id) ia ≡ ok d'
    → (d'.deadline_at ≡ some (ia.occurred_at +ℤ (grant ia +ℤ pause_span none ia)))
      × (d'.last_paused_at ≡ open_pause none ia)
unfolding on_paused on_resumed extended
on_action-first game_id ia d' e = elim (on_action_cases (fresh game_id) ia d' e) [
  | inl (a, s) ↦
      let (n, p, sb, q, x) = on_saved_cases (fresh game_id) ia d' s in
      ground (arith, saved_tests ia.action a, sb, +ℤ_zero (seconds n), x)
  | inr (inl (a, s)) ↦ absurd (ground arith)
  | inr (inr (a, s)) ↦ absurd (ground arith)
]

-- The deadline of a replayed game that has interactions is the time of the first of them, plus
-- the Durations of all the saves (which wrap around), plus the Duration of every pause that was
-- resumed (which saturates).
pub deadline_formula :
    (game_id : ℤ) (first : Interaction) (rest : List Interaction) (now : Time) (d : SharedData)
    → build_shared_data game_id (first ∷ rest) now ≡ ok d
    → d.deadline_at
      ≡ some (first.occurred_at +ℤ granted (first ∷ rest) +ℤ paused_time none (first ∷ rest))
unfolding replay_from compute_valid
deadline_formula game_id first rest now d h =
    let (d', e, same) = replayed game_id (first ∷ rest) now d h in
    let (next, one, later) = >>=-eq-ok (step (fresh game_id) zero_time first) _ e in
    let (dl, since') =
      on_action-first game_id first next
        (step-Follows (fresh game_id) zero_time first next one).1 in
    let rest_of =
      replay_from-deadline next first.occurred_at rest d' _
        (step-IsWellFormed (fresh game_id) zero_time first next tt one) dl later in
    ap (λ (x : SharedData). x.deadline_at) same
    ∙ rest_of
    ∙ rw since' (
        ap some (
          +ℤ_regroup first.occurred_at (grant first) (pause_span none first) (granted rest)
            (paused_time (open_pause none first) rest)))
