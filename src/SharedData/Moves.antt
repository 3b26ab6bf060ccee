-- ===== src/SharedData/Moves.antt =====
-- internal/core/service/shared_data.go: the state machine of a game as a relation, with no state
-- record, next to the `switch` of `BuildSharedData`.
use keep_it_up.Prelude.{
  ℤ, pos, some, String, eq_iff, ◌≡◌, ◌≢◌, ◌⊎◌, inl, inr, refl, sym, ◌∙◌, arith, ◌≤ℤ◌, ◌<ℤ◌, ok, err,
  >>=-eq-ok, Bool-cases, false,
}
use keep_it_up.Time.{Time, Duration, seconds, zero_time}
use keep_it_up.Model.{Status, not_started, playing, paused, Interaction, SharedData}
use keep_it_up.SharedData.{
  BuildError, step, on_action, on_saved, on_paused, on_resumed, extended, checked_saved_by,
  is_paused,
}
use keep_it_up.SharedData.Shape.{IsWellFormed}

-- A save for a positive number of seconds.
pub record IsSave (ia : Interaction) : Type 0 where
  pub is_saved : ia.action ≡ "saved"
  pub duration : ℤ
  pub has_duration : ia.saved_by ≡ some duration
  pub positive : pos 0 <ℤ duration

-- A game is started or extended by a save, never while it is paused; a pause is only taken from a
-- game that is playing, and a resumption from one that is paused.
pub data Move : Status → Interaction → Status → Type 0 where
  start : (ia : Interaction) → IsSave ia → Move not_started ia playing
  extend : (ia : Interaction) → IsSave ia → Move playing ia playing
  pause : (ia : Interaction) → ia.action ≡ "paused" → Move playing ia paused
  resume : (ia : Interaction) → ia.action ≡ "resumed" → Move paused ia playing

-- An interaction of the game, no earlier than the one before it.
pub record Follows (game_id : ℤ) (prev : Time) (ia : Interaction) : Type 0 where
  pub same_game : ia.game_id ≡ game_id
  pub in_order : (prev ≡ zero_time) ⊎ (prev ≤ℤ ia.occurred_at)

pub literals_differ :
    (◌≢◌ {A = String} "saved" "paused")
    × (◌≢◌ {A = String} "saved" "resumed")
    × (◌≢◌ {A = String} "paused" "resumed")
literals_differ = (
  ground (arith, eq_iff "saved" "paused"),
  ground (arith, eq_iff "saved" "resumed"),
  ground (arith, eq_iff "paused" "resumed"),
)

module _ (d : SharedData) (ia : Interaction) where
  pub on_action-saved : ia.action ≡ "saved" → on_action d ia ≡ on_saved d ia
  unfolding on_action
  on_action-saved e = ground (arith, eq_iff ia.action "saved")

  pub on_action-paused : ia.action ≡ "paused" → on_action d ia ≡ on_paused d ia
  unfolding on_action
  on_action-paused e =
      ground (arith, eq_iff ia.action "saved", eq_iff ia.action "paused", literals_differ)

  pub on_action-resumed : ia.action ≡ "resumed" → on_action d ia ≡ on_resumed d ia
  unfolding on_action
  on_action-resumed e = ground (
    arith,
    eq_iff ia.action "saved",
    eq_iff ia.action "paused",
    eq_iff ia.action "resumed",
    literals_differ,
  )

  pub on_action_cases :
      (d' : SharedData)
      → on_action d ia ≡ ok d'
      → ((ia.action ≡ "saved") × (on_saved d ia ≡ ok d'))
        ⊎ ((ia.action ≡ "paused") × (on_paused d ia ≡ ok d'))
        ⊎ ((ia.action ≡ "resumed") × (on_resumed d ia ≡ ok d'))
  unfolding on_action
  on_action_cases d' h =
      ground
        (arith, eq_iff ia.action "saved", eq_iff ia.action "paused", eq_iff ia.action "resumed")

checked_saved_by_ok :
    (ia : Interaction) (s : ℤ) → checked_saved_by ia ≡ ok s → (ia.saved_by ≡ some s) × (pos 0 <ℤ s)
checked_saved_by_ok ia s h = ground arith

checked_saved_by-eq_ok :
    (ia : Interaction) (s : ℤ) → ia.saved_by ≡ some s → pos 0 <ℤ s → checked_saved_by ia ≡ ok s
checked_saved_by-eq_ok ia s e h = ground arith

-- What a save that is accepted has passed, and what is left of it.
pub on_saved_cases :
    (d : SharedData) (ia : Interaction) (d' : SharedData)
    → on_saved d ia ≡ ok d'
    → (s : ℤ) × (is_paused d.status ≡ false)
      × (ia.saved_by ≡ some s)
      × (pos 0 <ℤ s)
      × (extended d ia (seconds s) ≡ ok d')
unfolding on_saved
on_saved_cases d ia d' h = elim (Bool-cases (is_paused d.status)) [
  | inl p ↦ absurd (ground arith)
  | inr p ↦
      let (s, checked, rest) =
        >>=-eq-ok (checked_saved_by ia) (λ s. extended d ia (seconds s)) (rw p at h) in
      let (e, q) = checked_saved_by_ok ia s checked in (s, p, e, q, rest)
]

-- The status after an accepted save.
extended-status :
    (d : SharedData) (ia : Interaction) (t : Duration) (d' : SharedData)
    → extended d ia t ≡ ok d'
    → is_paused d.status ≡ false
    → ((d.status ≡ not_started) ⊎ (d.status ≡ playing)) × (d'.status ≡ playing)
unfolding extended
extended-status d ia t d' h p = ground arith

on_saved-Move :
    (d : SharedData) (ia : Interaction) (d' : SharedData)
    → ia.action ≡ "saved"
    → on_saved d ia ≡ ok d'
    → Move d.status ia d'.status
on_saved-Move d ia d' a h =
    let (s, p, e, q, r) = on_saved_cases d ia d' h in
    let is_save : IsSave ia = record {
      is_saved = a;
      duration = s;
      has_duration = e;
      positive = q;
    } in
    let (was, is_now) = extended-status d ia (seconds s) d' r p in
    rw is_now (elim was [ inl n ↦ rw n (start ia is_save) | inr n ↦ rw n (extend ia is_save) ])

on_paused-status :
    (d : SharedData) (ia : Interaction) (d' : SharedData)
    → on_paused d ia ≡ ok d'
    → (d.status ≡ playing) × (d'.status ≡ paused)
unfolding on_paused
on_paused-status d ia d' h = ground arith

on_resumed-status :
    (d : SharedData) (ia : Interaction) (d' : SharedData)
    → on_resumed d ia ≡ ok d'
    → (d.status ≡ paused) × (d'.status ≡ playing)
unfolding on_resumed
on_resumed-status d ia d' h = ground arith

pub on_action-Move :
    (d : SharedData) (ia : Interaction) (d' : SharedData)
    → on_action d ia ≡ ok d'
    → Move d.status ia d'.status
on_action-Move d ia d' h = elim (on_action_cases d ia d' h) [
  | inl (a, e) ↦ on_saved-Move d ia d' a e
  | inr (inl (a, e)) ↦
      let (was, is_now) = on_paused-status d ia d' e in rw (was, is_now) (pause ia a)
  | inr (inr (a, e)) ↦
      let (was, is_now) = on_resumed-status d ia d' e in rw (was, is_now) (resume ia a)
]

pub step-Follows :
    (d : SharedData) (prev : Time) (ia : Interaction) (d' : SharedData)
    → step d prev ia ≡ ok d'
    → Follows d.game_id prev ia × (on_action d ia ≡ ok d')
unfolding step
step-Follows d prev ia d' h = (ground arith, ground arith)

pub step_of_Follows :
    (d : SharedData) (prev : Time) (ia : Interaction)
    → Follows d.game_id prev ia
    → step d prev ia ≡ on_action d ia
unfolding step
step_of_Follows d prev ia f = ground arith

-- A move from a well-formed state is made.
on_saved-ne_err :
    (d : SharedData) (ia : Interaction) (x : BuildError)
    → IsWellFormed d
    → IsSave ia
    → d.status ≢ paused
    → on_saved d ia ≢ err x
unfolding on_saved extended
on_saved-ne_err d ia x w s n h =
    ground (arith, checked_saved_by-eq_ok ia s.duration s.has_duration s.positive)

on_paused-ne_err :
    (d : SharedData) (ia : Interaction) (x : BuildError)
    → d.status ≡ playing
    → on_paused d ia ≢ err x
unfolding on_paused
on_paused-ne_err d ia x p h = ground arith

on_resumed-ne_err :
    (d : SharedData) (ia : Interaction) (x : BuildError)
    → IsWellFormed d
    → d.status ≡ paused
    → on_resumed d ia ≢ err x
unfolding on_resumed
on_resumed-ne_err d ia x w p h = ground arith

-- The status that the move names is the one that the code reaches.
pub Move-unique : {s t u : Status} {ia : Interaction} → Move s ia t → Move s ia u → t ≡ u
Move-unique (start ia _) (start _ _) = refl
Move-unique (extend ia _) (extend _ _) = refl
Move-unique (extend ia s) (pause _ a) = absurd (literals_differ.0 (sym s.is_saved ∙ a))
Move-unique (pause ia a) (extend _ s) = absurd (literals_differ.0 (sym s.is_saved ∙ a))
Move-unique (pause ia a) (pause _ _) = refl
Move-unique (resume ia a) (resume _ _) = refl

pub on_action-ne_err :
    (d : SharedData) (ia : Interaction) (x : BuildError) {s t : Status}
    → d.status ≡ s
    → IsWellFormed d
    → Move s ia t
    → on_action d ia ≢ err x
on_action-ne_err d ia x e w (start _ s) h =
    on_saved-ne_err d ia x w s (λ p. cc) (sym (on_action-saved d ia s.is_saved) ∙ h)
on_action-ne_err d ia x e w (extend _ s) h =
    on_saved-ne_err d ia x w s (λ p. cc) (sym (on_action-saved d ia s.is_saved) ∙ h)
on_action-ne_err d ia x e w (pause _ a) h =
    on_paused-ne_err d ia x e (sym (on_action-paused d ia a) ∙ h)
on_action-ne_err d ia x e w (resume _ a) h =
    on_resumed-ne_err d ia x w e (sym (on_action-resumed d ia a) ∙ h)
