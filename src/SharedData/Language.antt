-- ===== src/SharedData/Language.antt =====
-- internal/core/service/shared_data.go: the logs that the state machine allows.
use keep_it_up.Prelude.{
  ℤ, List, [], ◌∷◌, ◌≡◌, ◌↔◌, refl, sym, ◌∙◌, arith, ok, >>=-eq-ok, ok_of_never_err,
}
use keep_it_up.Time.{Time, zero_time}
use keep_it_up.Model.{Status, not_started, Interaction, SharedData}
use keep_it_up.SharedData.{step, replay_from, fresh, build_shared_data, compute_valid}
use keep_it_up.SharedData.Shape.{IsWellFormed, step-IsWellFormed, step-game_id}
use keep_it_up.SharedData.Moves.{
  Move, Follows, Move-unique, on_action-Move, on_action-ne_err, step-Follows, step_of_Follows,
}

abbrev pub Legal : ℤ → Time → Status → List Interaction → Status → Type 0
Legal game_id prev s [] t = s ≡ t
Legal game_id prev s (ia ∷ rest) t =
    (u : Status) × Follows game_id prev ia × Move s ia u × Legal game_id ia.occurred_at u rest t

-- A log that the relation allows is replayed, to the status that the relation reaches.
pub replay_from_of_Legal :
    (d : SharedData) (prev : Time) (l : List Interaction) (t : Status)
    → IsWellFormed d
    → Legal d.game_id prev d.status l t
    → (d' : SharedData) × (replay_from d prev l ≡ ok d') × (d'.status ≡ t)
unfolding replay_from
replay_from_of_Legal d prev [] t w h = (d, refl, h)
replay_from_of_Legal d prev (ia ∷ rest) t w (u, f, m, later) =
    let (next, e) =
      ok_of_never_err (step d prev ia)
        (λ x p. on_action-ne_err d ia x refl w m (sym (step_of_Follows d prev ia f) ∙ p)) in
    let g : next.game_id ≡ d.game_id = step-game_id d prev ia next e in
    let same : u ≡ next.status =
      Move-unique m (on_action-Move d ia next (step-Follows d prev ia next e).1) in
    rw e (
      replay_from_of_Legal next ia.occurred_at rest t (step-IsWellFormed d prev ia next w e)
        (rw (g, ← same) later))

pub Legal-of_replay_from :
    (d : SharedData) (prev : Time) (l : List Interaction) (d' : SharedData)
    → replay_from d prev l ≡ ok d'
    → Legal d.game_id prev d.status l d'.status
unfolding replay_from
Legal-of_replay_from d prev [] d' h = ground arith
Legal-of_replay_from d prev (ia ∷ rest) d' h =
    let (next, e, later) = >>=-eq-ok (step d prev ia) _ h in
    let (f, act) = step-Follows d prev ia next e in
    let ih = Legal-of_replay_from next ia.occurred_at rest d' later in
    (next.status, f, on_action-Move d ia next act, rw (step-game_id d prev ia next e) at ih)

-- `BuildSharedData` succeeds on exactly the logs that the state machine allows for the game, and
-- the status that it returns is the one that the machine reaches.
pub build_shared_data_iff :
    (game_id : ℤ) (l : List Interaction) (now : Time) (t : Status)
    → ((d : SharedData) × (build_shared_data game_id l now ≡ ok d) × (d.status ≡ t))
      ↔ Legal game_id zero_time not_started l t
unfolding build_shared_data
build_shared_data_iff game_id [] now t = (λ r. ground arith, λ e. (fresh game_id, refl, e))
build_shared_data_iff game_id (ia ∷ rest) now t = (sound, complete)
  where
    l : List Interaction
    l = ia ∷ rest

    sound :
        (d : SharedData) × (build_shared_data game_id l now ≡ ok d) × (d.status ≡ t)
        → Legal game_id zero_time not_started l t
    sound (d, e, p) =
        let (d', replayed, done) = >>=-eq-ok (replay_from (fresh game_id) zero_time l) _ e in
        let same : d'.status ≡ t = ground arith in
        rw same at (Legal-of_replay_from (fresh game_id) zero_time l d' replayed)

    complete :
        Legal game_id zero_time not_started l t
        → (d : SharedData) × (build_shared_data game_id l now ≡ ok d) × (d.status ≡ t)
    complete h =
        let (d', e, p) = replay_from_of_Legal (fresh game_id) zero_time l t tt h in
        (compute_valid d' now, rw e, p)
