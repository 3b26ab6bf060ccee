-- ===== src/SharedData/Append.antt =====
-- internal/core/service/shared_data.go: the loop of `BuildSharedData` on a log that is appended to.
use keep_it_up.Prelude.{
  ℤ, List, [], ◌∷◌, ◌++◌, ◌≡◌, refl, inl, inr, Result, ok, err, ◌>>=◌, Result-cases, >>=-eq-ok,
}
use keep_it_up.Time.{Time, zero_time}
use keep_it_up.Model.{Interaction, SharedData}
use keep_it_up.SharedData.{BuildError, step, replay_from, fresh, build_shared_data, compute_valid}

-- When the last interaction occurred; `prev` if there is none.
abbrev pub last_at : Time → List Interaction → Time
last_at prev [] = prev
last_at prev (ia ∷ rest) = last_at ia.occurred_at rest

pub replay_from-append :
    (d : SharedData) (prev : Time) (l m : List Interaction)
    → replay_from d prev (l ++ m)
      ≡ (replay_from d prev l >>= λ d'. replay_from d' (last_at prev l) m)
unfolding replay_from
replay_from-append d prev [] m = refl
replay_from-append d prev (ia ∷ rest) m = elim (Result-cases (step d prev ia)) [
  | inl (next, e) ↦ rw e (replay_from-append next ia.occurred_at rest m)
  | inr (x, e) ↦ rw e refl
]

pub build_shared_data-replay_from :
    (game_id : ℤ) (l : List Interaction) (now : Time)
    → build_shared_data game_id l now
      ≡ (replay_from (fresh game_id) zero_time l >>= λ d. ok (compute_valid d now))
unfolding build_shared_data replay_from
build_shared_data-replay_from game_id [] now = refl
build_shared_data-replay_from game_id (ia ∷ rest) now = refl

-- What a build that succeeds has replayed.
pub replayed :
    (game_id : ℤ) (l : List Interaction) (now : Time) (d : SharedData)
    → build_shared_data game_id l now ≡ ok d
    → (d' : SharedData) × (replay_from (fresh game_id) zero_time l ≡ ok d')
      × (d ≡ compute_valid d' now)
replayed game_id l now d h =
    let (d', e, done) =
      >>=-eq-ok (replay_from (fresh game_id) zero_time l) _
        (rw (build_shared_data-replay_from game_id l now) at h) in
    (d', e, cc)

step_then :
    (f : SharedData → Result BuildError SharedData) (r : Result BuildError SharedData)
    → ((r >>= λ d. ok d) >>= f) ≡ (r >>= f)
step_then f (ok d) = refl
step_then f (err x) = refl

-- The log that is one interaction longer, when the shorter one is replayed.
pub build_shared_data-append_one :
    (game_id : ℤ) (l : List Interaction) (ia : Interaction) (now : Time) (d : SharedData)
    → replay_from (fresh game_id) zero_time l ≡ ok d
    → build_shared_data game_id (l ++ ia ∷ []) now
      ≡ (step d (last_at zero_time l) ia >>= λ d'. ok (compute_valid d' now))
unfolding replay_from
build_shared_data-append_one game_id l ia now d h =
    rw
      (
        build_shared_data-replay_from game_id (l ++ ia ∷ []) now,
        replay_from-append (fresh game_id) zero_time l (ia ∷ []),
        h,
      )
      (step_then (λ d'. ok (compute_valid d' now)) (step d (last_at zero_time l) ia))
