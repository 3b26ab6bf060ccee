-- ===== src/SharedData/Overflow.antt =====
-- internal/core/service/shared_data.go: saves that fit a Duration, and saves that do not.
use keep_it_up.Prelude.{
  ℕ, ◌+◌, ◌*◌, ◌≤◌, ◌<◌, ℤ, pos, negsuc, ◌+ℤ◌, ◌≤ℤ◌, ◌<ℤ◌, int_laws, ltb_ℤ-false_iff, false, Option,
  none, some, List, [], ◌∷◌, ◌≡◌, refl, sym, ◌∙◌, ap, arith, str_eq, ok, >>=-eq-ok, if◌then◌else◌,
}
use keep_it_up.Time.{Time, Duration, second, seconds, zero_time, before}
use keep_it_up.Time.Range.{max_seconds, seconds-exact, seconds-negative}
use keep_it_up.Model.{Interaction, SharedData}
use keep_it_up.SharedData.{step, replay_from, extended, fresh, build_shared_data, compute_valid}
use keep_it_up.SharedData.Append.{replayed}
use keep_it_up.SharedData.Moves.{on_saved_cases, on_action-saved, step-Follows}
use keep_it_up.SharedData.Deadline.{granted, grant, saved_for, paused_time, deadline_formula}

-- The seconds that a save asks for, and their total.
abbrev pub asked_by : Option ℤ → ℕ
asked_by (some (pos n)) = n
asked_by _ = 0

abbrev pub asked : Interaction → ℕ
asked ia = if str_eq ia.action "saved" then asked_by ia.saved_by else 0

abbrev pub total_asked : List Interaction → ℕ
total_asked [] = 0
total_asked (ia ∷ rest) = asked ia + total_asked rest

-- Each save is for a number of seconds, and the number fits a Duration.
abbrev pub Fits : Option ℤ → Type 0
Fits none = Unit
Fits (some (pos n)) = n ≤ max_seconds
Fits (some _) = ⊥

abbrev pub AllFit : List Interaction → Type 0
AllFit [] = Unit
AllFit (ia ∷ rest) = Fits ia.saved_by × AllFit rest

saved_for-exact : (s : Option ℤ) → Fits s → saved_for s ≡ pos (asked_by s * second)
saved_for-exact none h = refl
saved_for-exact (some (pos n)) h = seconds-exact n h
saved_for-exact (some (negsuc n)) h = elim h [ ]

add_pos : (a b : ℕ) → pos (a * second) +ℤ pos (b * second) ≡ pos ((a + b) * second)
add_pos a b = omega int_laws

grant-exact : (ia : Interaction) → Fits ia.saved_by → grant ia ≡ pos (asked ia * second)
grant-exact ia h = ground (arith, saved_for-exact ia.saved_by h)

granted-exact : (l : List Interaction) → AllFit l → granted l ≡ pos (total_asked l * second)
granted-exact [] h = refl
granted-exact (ia ∷ rest) h =
    rw (grant-exact ia h.0, granted-exact rest h.1) (add_pos (asked ia) (total_asked rest))

-- Where every duration of a log is a number of seconds that fits a Duration (292 years), the
-- deadline of the replayed game is exact: the time of the first interaction, the seconds asked
-- for in all, and the Durations of the pauses that were resumed.
pub deadline-exact :
    (game_id : ℤ) (first : Interaction) (rest : List Interaction) (now : Time) (d : SharedData)
    → AllFit (first ∷ rest)
    → build_shared_data game_id (first ∷ rest) now ≡ ok d
    → d.deadline_at
      ≡ some (
          first.occurred_at
          +ℤ pos (total_asked (first ∷ rest) * second)
          +ℤ paused_time none (first ∷ rest))
deadline-exact game_id first rest now d h e =
    deadline_formula game_id first rest now d e
    ∙ ap (λ (g : Duration). some (first.occurred_at +ℤ g +ℤ paused_time none (first ∷ rest)))
        (granted-exact (first ∷ rest) h)

below : (t x : ℤ) → x <ℤ pos 0 → t +ℤ x <ℤ t
below t x h = omega int_laws

-- The state that a negative extension starts.
started_below :
    (game_id : ℤ) (ia : Interaction) (now : Time) (x : Duration) (next : SharedData)
    → extended (fresh game_id) ia x ≡ ok next
    → x <ℤ pos 0
    → ia.occurred_at ≤ℤ now
    → ((compute_valid next now).deadline_at ≡ some (ia.occurred_at +ℤ x))
      × ((compute_valid next now).valid ≡ some false)
unfolding extended compute_valid
started_below game_id ia now x next e h late =
    let lapsed : before now (ia.occurred_at +ℤ x) ≡ false =
      (ltb_ℤ-false_iff now (ia.occurred_at +ℤ x)).1 (omega (int_laws, below ia.occurred_at x h)) in
    ground (arith, lapsed)

-- A game that is started by a save for more seconds than fit a Duration (and at most twice as many)
-- has its deadline before that save, and is not valid at the save or at any time after it.
pub oversized_save-lapses :
    (game_id : ℤ) (ia : Interaction) (n : ℕ) (now : Time) (d : SharedData)
    → ia.action ≡ "saved"
    → ia.saved_by ≡ some (pos n)
    → max_seconds < n
    → n ≤ 2 * max_seconds + 1
    → build_shared_data game_id (ia ∷ []) now ≡ ok d
    → ia.occurred_at ≤ℤ now
    → (t : Time) × (d.deadline_at ≡ some t) × (t <ℤ ia.occurred_at) × (d.valid ≡ some false)
unfolding replay_from
oversized_save-lapses game_id ia n now d a s lo hi e late =
    let (d', e', same) = replayed game_id (ia ∷ []) now d e in
    let (next, one, last) = >>=-eq-ok (step (fresh game_id) zero_time ia) _ e' in
    let (m, p, sb, q, x) = on_saved_cases (fresh game_id) ia next (
      sym (on_action-saved (fresh game_id) ia a)
      ∙ (step-Follows (fresh game_id) zero_time ia next one).1) in
    let m-n : m ≡ pos n = cc in
    let r : extended (fresh game_id) ia (seconds (pos n)) ≡ ok next = rw m-n at x in
    let (dl, v) =
      started_below game_id ia now (seconds (pos n)) next r (seconds-negative n lo hi) late in
    let same' : d ≡ compute_valid next now = cc in
    (
      ia.occurred_at +ℤ seconds (pos n),
      ap (λ (y : SharedData). y.deadline_at) same' ∙ dl,
      below ia.occurred_at (seconds (pos n)) (seconds-negative n lo hi),
      ap (λ (y : SharedData). y.valid) same' ∙ v,
    )
