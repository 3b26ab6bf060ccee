-- ===== src/SharedData/Shape.antt =====
-- internal/core/service/shared_data.go: which fields of a replayed state are set, by its status.
use keep_it_up.Prelude.{
  ℤ, Option, none, some, List, [], ◌∷◌, ◌≡◌, ◌≢◌, ◌∙◌, inl, inr, arith, ok, err, Result-cases,
  >>=-eq-ok,
}
use keep_it_up.Time.{Time, zero_time}
use keep_it_up.Model.{Status, not_started, playing, paused, Interaction, SharedData}
use keep_it_up.SharedData.{panicked, step, replay_from, fresh, build_shared_data}

-- By status: the deadline, the last save and the last pause.
abbrev pub Shape : Status → Option Time → Option Time → Option Time → Type 0
Shape not_started none none none = Unit
Shape playing (some _) (some _) none = Unit
Shape paused (some _) (some _) (some _) = Unit
Shape _ _ _ _ = ⊥

abbrev pub IsWellFormed : SharedData → Type 0
IsWellFormed d = Shape d.status d.deadline_at d.last_saved_at d.last_paused_at

pub step-IsWellFormed :
    (d : SharedData) (prev : Time) (ia : Interaction) (d' : SharedData)
    → IsWellFormed d
    → step d prev ia ≡ ok d'
    → IsWellFormed d'
unfolding step
step-IsWellFormed d prev ia d' w h = ground arith

pub step-ne-panicked :
    (d : SharedData) (prev : Time) (ia : Interaction)
    → IsWellFormed d
    → step d prev ia ≢ err panicked
unfolding step
step-ne-panicked d prev ia w h = ground arith

pub step-game_id :
    (d : SharedData) (prev : Time) (ia : Interaction) (d' : SharedData)
    → step d prev ia ≡ ok d'
    → d'.game_id ≡ d.game_id
unfolding step
step-game_id d prev ia d' h = ground arith

pub replay_from-IsWellFormed :
    (d : SharedData) (prev : Time) (l : List Interaction) (d' : SharedData)
    → IsWellFormed d
    → replay_from d prev l ≡ ok d'
    → IsWellFormed d'
unfolding replay_from
replay_from-IsWellFormed d prev [] d' w h = ground arith
replay_from-IsWellFormed d prev (ia ∷ rest) d' w h =
    let (next, first, later) = >>=-eq-ok (step d prev ia) _ h in
    replay_from-IsWellFormed next ia.occurred_at rest d' (step-IsWellFormed d prev ia next w first)
      later

pub replay_from-game_id :
    (d : SharedData) (prev : Time) (l : List Interaction) (d' : SharedData)
    → replay_from d prev l ≡ ok d'
    → d'.game_id ≡ d.game_id
unfolding replay_from
replay_from-game_id d prev [] d' h = ground arith
replay_from-game_id d prev (ia ∷ rest) d' h =
    let (next, first, later) = >>=-eq-ok (step d prev ia) _ h in
    replay_from-game_id next ia.occurred_at rest d' later ∙ step-game_id d prev ia next first

pub replay_from-ne-panicked :
    (d : SharedData) (prev : Time) (l : List Interaction)
    → IsWellFormed d
    → replay_from d prev l ≢ err panicked
unfolding replay_from
replay_from-ne-panicked d prev [] w h = cc
replay_from-ne-panicked d prev (ia ∷ rest) w h = elim (Result-cases (step d prev ia)) [
  | inl (next, e) ↦
      replay_from-ne-panicked next ia.occurred_at rest (step-IsWellFormed d prev ia next w e)
        (rw e at h)
  | inr (x, e) ↦ step-ne-panicked d prev ia w (e ∙ (rw e at h))
]

-- Whatever the interactions, `BuildSharedData` follows no nil pointer.
pub build_shared_data-ne-panicked :
    (game_id : ℤ) (l : List Interaction) (now : Time)
    → build_shared_data game_id l now ≢ err panicked
unfolding build_shared_data
build_shared_data-ne-panicked game_id [] now h = cc
build_shared_data-ne-panicked game_id (ia ∷ rest) now h =
    ground (arith, replay_from-ne-panicked (fresh game_id) zero_time (ia ∷ rest) tt)

-- What `BuildSharedData` returns belongs to the game asked for, and has the deadline and the last
-- save set exactly when the game has started, the last pause exactly when it is paused.
pub build_shared_data-IsWellFormed :
    (game_id : ℤ) (l : List Interaction) (now : Time) (d : SharedData)
    → build_shared_data game_id l now ≡ ok d
    → IsWellFormed d × (d.game_id ≡ game_id)
unfolding build_shared_data
build_shared_data-IsWellFormed game_id [] now d h = ground arith
build_shared_data-IsWellFormed game_id (ia ∷ rest) now d h =
    let l = ia ∷ rest in
    let (d', e, done) = >>=-eq-ok (replay_from (fresh game_id) zero_time l) _ h in
    ground (
      arith,
      replay_from-IsWellFormed (fresh game_id) zero_time l d' tt e,
      replay_from-game_id (fresh game_id) zero_time l d' e,
    )
