-- ===== src/SharedData/Validity.antt =====
-- internal/core/service/shared_data.go: `ComputeValid` and the interactions that touch what it reads.
use keep_it_up.Prelude.{
  ℤ, false, some, List, [], ◌∷◌, ◌++◌, ◌≡◌, sym, ◌∙◌, ap, arith, ◌+ℤ◌, ◌≤ℤ◌, ◌<ℤ◌, ok, >>=-eq-ok,
}
use keep_it_up.Time.{Time, zero_time, sub, before}
use keep_it_up.Model.{playing, paused, Interaction, SharedData}
use keep_it_up.SharedData.{
  step, on_paused, on_resumed, replay_from, fresh, build_shared_data, compute_valid,
}
use keep_it_up.SharedData.Moves.{step-Follows, on_action-paused, on_action-resumed}
use keep_it_up.SharedData.Append.{last_at, replayed, build_shared_data-append_one}

pause_state :
    (d : SharedData) (ia : Interaction) (d' : SharedData)
    → on_paused d ia ≡ ok d'
    → (d.status ≡ playing)
      × (d'.status ≡ paused)
      × (d'.last_paused_at ≡ some ia.occurred_at)
      × (d'.deadline_at ≡ d.deadline_at)
      × (d'.last_saved_at ≡ d.last_saved_at)
unfolding on_paused
pause_state d ia d' h = ground arith

-- The verdicts on a state that is playing, at the instant of a pause, and on the paused state.
freeze :
    (d d' : SharedData) (p now t : Time)
    → d.status ≡ playing
    → d'.status ≡ paused
    → d'.last_paused_at ≡ some p
    → d'.deadline_at ≡ d.deadline_at
    → d'.last_saved_at ≡ d.last_saved_at
    → d.last_saved_at ≡ some t
    → t <ℤ p
    → p ≤ℤ now
    → (compute_valid d' now).valid ≡ (compute_valid d p).valid
unfolding compute_valid
freeze d d' p now t s s' lp dl ls saved lt later = ground arith

-- A pause late enough for the clock to be frozen changes no verdict: it has the one of its instant.
thaw :
    (d d' : SharedData) (p now t deadline : Time)
    → d'.status ≡ paused
    → d'.last_paused_at ≡ some p
    → d'.deadline_at ≡ some deadline
    → d'.last_saved_at ≡ some t
    → p ≤ℤ t
    → (compute_valid d' now).valid ≡ some (before now deadline)
unfolding compute_valid
thaw d d' p now t deadline s' lp dl ls le = ground arith

-- The state that a log gives, and the state after one pause more.
paused_after :
    (game_id : ℤ) (l : List Interaction) (ia : Interaction) (now : Time) (d after' : SharedData)
    → ia.action ≡ "paused"
    → replay_from (fresh game_id) zero_time l ≡ ok d
    → build_shared_data game_id (l ++ ia ∷ []) now ≡ ok after'
    → (d' : SharedData) × (on_paused d ia ≡ ok d') × (compute_valid d' now ≡ after')
paused_after game_id l ia now d after' a e h' =
    let (d', e', same') =
      >>=-eq-ok (step d (last_at zero_time l) ia) _
        (sym (build_shared_data-append_one game_id l ia now d e) ∙ h') in
    (d', sym (on_action-paused d ia a) ∙ (step-Follows d _ ia d' e').1, cc)

-- If the last save came before a pause that is accepted, then at the pause and at every later
-- time the paused game has the verdict that it had at the instant of the pause.
pub pause-freezes :
    (game_id : ℤ) (l : List Interaction) (ia : Interaction) (now : Time)
    (before' after' : SharedData) (t : Time)
    → ia.action ≡ "paused"
    → build_shared_data game_id l ia.occurred_at ≡ ok before'
    → build_shared_data game_id (l ++ ia ∷ []) now ≡ ok after'
    → before'.last_saved_at ≡ some t
    → t <ℤ ia.occurred_at
    → ia.occurred_at ≤ℤ now
    → after'.valid ≡ before'.valid
pause-freezes game_id l ia now before' after' t a h h' saved lt later =
    let (d, e, same) = replayed game_id l ia.occurred_at before' h in
    let (d', p, same') = paused_after game_id l ia now d after' a e h' in
    let (was, is_now, since', dl, ls) = pause_state d ia d' p in
    let saved' : d.last_saved_at ≡ some t =
      unfold compute_valid in sym (ap (λ (x : SharedData). x.last_saved_at) same) ∙ saved in
    sym (ap (λ (x : SharedData). x.valid) same')
    ∙ freeze d d' ia.occurred_at now t was is_now since' dl ls saved' lt later
    ∙ sym (ap (λ (x : SharedData). x.valid) same)

-- If a pause that is accepted came no later than the last save (times are stored to the second),
-- then the clock is not frozen: from the deadline on the paused game is not valid.
pub same_second_pause-lapses :
    (game_id : ℤ) (l : List Interaction) (ia : Interaction) (now : Time)
    (before' after' : SharedData) (t deadline : Time)
    → ia.action ≡ "paused"
    → build_shared_data game_id l ia.occurred_at ≡ ok before'
    → build_shared_data game_id (l ++ ia ∷ []) now ≡ ok after'
    → before'.last_saved_at ≡ some t
    → before'.deadline_at ≡ some deadline
    → ia.occurred_at ≤ℤ t
    → deadline ≤ℤ now
    → after'.valid ≡ some false
same_second_pause-lapses game_id l ia now before' after' t deadline a h h' saved ends le late =
    let (d, e, same) = replayed game_id l ia.occurred_at before' h in
    let (d', p, same') = paused_after game_id l ia now d after' a e h' in
    let (was, is_now, since', dl, ls) = pause_state d ia d' p in
    let saved' : d.last_saved_at ≡ some t =
      unfold compute_valid in sym (ap (λ (x : SharedData). x.last_saved_at) same) ∙ saved in
    let ends' : d.deadline_at ≡ some deadline =
      unfold compute_valid in sym (ap (λ (x : SharedData). x.deadline_at) same) ∙ ends in
    sym (ap (λ (x : SharedData). x.valid) same')
    ∙ thaw d d' ia.occurred_at now t deadline is_now since' (dl ∙ ends') (ls ∙ saved') le
    ∙ ap some (ground arith)

resume_state :
    (d : SharedData) (ia : Interaction) (d' : SharedData) (p deadline : Time)
    → d.last_paused_at ≡ some p
    → d.deadline_at ≡ some deadline
    → on_resumed d ia ≡ ok d'
    → (d'.status ≡ playing) × (d'.deadline_at ≡ some (deadline +ℤ sub ia.occurred_at p))
unfolding on_resumed
resume_state d ia d' p deadline e e' h = ground arith

-- If a game has a deadline and was paused at `p`, a resumption that is accepted moves the
-- deadline by the Duration from `p` to the resumption, and the game is then valid exactly before
-- the new deadline.
pub resume-keeps_remaining :
    (game_id : ℤ) (l : List Interaction) (ia : Interaction) (now : Time)
    (before' after' : SharedData) (p deadline : Time)
    → ia.action ≡ "resumed"
    → build_shared_data game_id l now ≡ ok before'
    → build_shared_data game_id (l ++ ia ∷ []) now ≡ ok after'
    → before'.last_paused_at ≡ some p
    → before'.deadline_at ≡ some deadline
    → (after'.deadline_at ≡ some (deadline +ℤ sub ia.occurred_at p))
      × (after'.valid ≡ some (before now (deadline +ℤ sub ia.occurred_at p)))
unfolding compute_valid
resume-keeps_remaining game_id l ia now before' after' p deadline a h h' since' ends =
    let (d, e, same) = replayed game_id l now before' h in
    let (d', e', same') =
      >>=-eq-ok (step d (last_at zero_time l) ia) _
        (sym (build_shared_data-append_one game_id l ia now d e) ∙ h') in
    let q = sym (on_action-resumed d ia a) ∙ (step-Follows d _ ia d' e').1 in
    let since'' : d.last_paused_at ≡ some p =
      sym (ap (λ (x : SharedData). x.last_paused_at) same) ∙ since' in
    let ends' : d.deadline_at ≡ some deadline =
      sym (ap (λ (x : SharedData). x.deadline_at) same) ∙ ends in
    let r = resume_state d ia d' p deadline since'' ends' q in ground (arith, r, same')
