-- ===== src/Tests/Games.antt =====
-- A game that is saved at 100 s for a minute, paused at 130 s and resumed at 150 s.
use keep_it_up.Prelude.{
  ℕ, ◌*◌, pos, negsuc, ◌+ℤ◌, ◌-ℤ◌, ◌<ℤ◌, ◌↔◌, ◌≢◌, Bool, true, false, Option, none, some, [], ◌∷◌,
  ◌≡◌, refl, arith, ok, err,
}
use keep_it_up.Time.{Time, second, zero_time, seconds, wrap64, sub, before}
use keep_it_up.Model.{Status, not_started, playing, paused, Interaction, SharedData}
use keep_it_up.SharedData.{
  panicked, step, on_action, on_saved, on_paused, on_resumed, extended, replay_from, compute_valid,
  build_shared_data,
}
use keep_it_up.SharedData.Shape.{
  IsWellFormed, build_shared_data-ne-panicked, build_shared_data-IsWellFormed,
}
use keep_it_up.SharedData.Language.{Legal, build_shared_data_iff}
use keep_it_up.SharedData.Deadline.{granted, paused_time, deadline_formula}
use keep_it_up.SharedData.Overflow.{total_asked, deadline-exact, oversized_save-lapses}
use keep_it_up.SharedData.Validity.{pause-freezes, same_second_pause-lapses, resume-keeps_remaining}

abbrev pub at : ℕ → Time
at s = pos (s * second)

abbrev saved : Interaction
saved = record {
  id = pos 1;
  game_id = pos 7;
  player_id = some (pos 3);
  action = "saved";
  occurred_at = at 100;
  saved_by = some (pos 60);
}

abbrev paused_at : ℕ → Interaction
paused_at s = record {
  id = pos 2;
  game_id = pos 7;
  player_id = some (pos 3);
  action = "paused";
  occurred_at = at s;
  saved_by = none;
}

abbrev resumed : Interaction
resumed = record {
  id = pos 3;
  game_id = pos 7;
  player_id = some (pos 3);
  action = "resumed";
  occurred_at = at 150;
  saved_by = none;
}

abbrev state : Status → Bool → ℕ → Option Time → SharedData
state s v deadline p = record {
  game_id = pos 7;
  valid = some v;
  status = s;
  deadline_at = some (at deadline);
  last_saved_at = some (at 100);
  last_paused_at = p;
}

saved_once : build_shared_data (pos 7) (saved ∷ []) (at 130) ≡ ok (state playing true 160 none)
unfolding build_shared_data replay_from step on_action on_saved extended compute_valid seconds
    wrap64 ◌+ℤ◌
saved_once = refl

paused_once :
    build_shared_data (pos 7) (saved ∷ paused_at 130 ∷ []) (at 200)
    ≡ ok (state paused true 160 (some (at 130)))
unfolding build_shared_data replay_from step on_action on_saved on_paused extended compute_valid
    seconds wrap64 ◌+ℤ◌
paused_once = refl

all_three :
    build_shared_data (pos 7) (saved ∷ paused_at 130 ∷ resumed ∷ []) (at 200)
    ≡ ok (state playing false 180 none)
unfolding build_shared_data replay_from step on_action on_saved on_paused on_resumed extended
    compute_valid seconds wrap64 sub ◌+ℤ◌ ◌-ℤ◌
all_three = refl

build_shared_data-ne-panicked_example :
    build_shared_data (pos 7) (resumed ∷ paused_at 130 ∷ []) (at 200) ≢ err panicked
build_shared_data-ne-panicked_example =
    build_shared_data-ne-panicked (pos 7) (resumed ∷ paused_at 130 ∷ []) (at 200)

build_shared_data-IsWellFormed_example :
    IsWellFormed (state paused true 160 (some (at 130))) × (pos 7 ≡ pos 7)
build_shared_data-IsWellFormed_example =
    build_shared_data-IsWellFormed (pos 7) (saved ∷ paused_at 130 ∷ []) (at 200)
      (state paused true 160 (some (at 130))) paused_once

build_shared_data_iff_example :
    ((d : SharedData) × (build_shared_data (pos 7) (saved ∷ paused_at 130 ∷ []) (at 200) ≡ ok d)
      × (d.status ≡ paused))
    ↔ Legal (pos 7) zero_time not_started (saved ∷ paused_at 130 ∷ []) paused
build_shared_data_iff_example =
    build_shared_data_iff (pos 7) (saved ∷ paused_at 130 ∷ []) (at 200) paused

deadline_formula_example :
    (state playing false 180 none).deadline_at
    ≡ some (
        at 100
        +ℤ granted (saved ∷ paused_at 130 ∷ resumed ∷ [])
        +ℤ paused_time none (saved ∷ paused_at 130 ∷ resumed ∷ []))
deadline_formula_example =
    deadline_formula (pos 7) saved (paused_at 130 ∷ resumed ∷ []) (at 200)
      (state playing false 180 none) all_three

deadline-exact_example :
    (state playing false 180 none).deadline_at
    ≡ some (
        at 100
        +ℤ pos (total_asked (saved ∷ paused_at 130 ∷ resumed ∷ []) * second)
        +ℤ paused_time none (saved ∷ paused_at 130 ∷ resumed ∷ []))
deadline-exact_example =
    deadline-exact (pos 7) saved (paused_at 130 ∷ resumed ∷ []) (at 200)
      (state playing false 180 none) ground arith all_three

pause-freezes_example :
    (state paused true 160 (some (at 130))).valid ≡ (state playing true 160 none).valid
pause-freezes_example =
    pause-freezes (pos 7) (saved ∷ []) (paused_at 130) (at 200) (state playing true 160 none)
      (state paused true 160 (some (at 130))) (at 100) refl saved_once paused_once refl
      (ground arith) (ground arith)

resume-keeps_remaining_example :
    ((state playing false 180 none).deadline_at ≡ some (at 160 +ℤ sub (at 150) (at 130)))
    × ((state playing false 180 none).valid
        ≡ some (before (at 200) (at 160 +ℤ sub (at 150) (at 130))))
resume-keeps_remaining_example =
    resume-keeps_remaining (pos 7) (saved ∷ paused_at 130 ∷ []) resumed (at 200)
      (state paused true 160 (some (at 130))) (state playing false 180 none) (at 130) (at 160) refl
      paused_once all_three refl refl

saved_now : build_shared_data (pos 7) (saved ∷ []) (at 100) ≡ ok (state playing true 160 none)
unfolding build_shared_data replay_from step on_action on_saved extended compute_valid seconds
    wrap64 ◌+ℤ◌
saved_now = refl

-- Paused in the second of the save, and looked at after the deadline.
paused_now :
    build_shared_data (pos 7) (saved ∷ paused_at 100 ∷ []) (at 200)
    ≡ ok (state paused false 160 (some (at 100)))
unfolding build_shared_data replay_from step on_action on_saved on_paused extended compute_valid
    seconds wrap64 ◌+ℤ◌
paused_now = refl

same_second_pause-lapses_example : (state paused false 160 (some (at 100))).valid ≡ some false
same_second_pause-lapses_example =
    same_second_pause-lapses (pos 7) (saved ∷ []) (paused_at 100) (at 200)
      (state playing true 160 none) (state paused false 160 (some (at 100))) (at 100) (at 160) refl
      saved_now paused_now refl refl (ground arith) (ground arith)

-- A first save for 10,000,000,000 seconds.
abbrev oversized : Interaction
oversized = record saved { saved_by = some (pos 10_000_000_000) }

abbrev lapsed : SharedData
lapsed = record {
  game_id = pos 7;
  valid = some false;
  status = playing;
  deadline_at = some (negsuc 8_446_743_973_709_551_615);
  last_saved_at = some (at 100);
  last_paused_at = none;
}

saved_too_long : build_shared_data (pos 7) (oversized ∷ []) (at 200) ≡ ok lapsed
unfolding build_shared_data replay_from step on_action on_saved extended compute_valid seconds
    wrap64 ◌+ℤ◌
saved_too_long = refl

oversized_save-lapses_example :
    (t : Time) × (lapsed.deadline_at ≡ some t) × (t <ℤ at 100) × (lapsed.valid ≡ some false)
oversized_save-lapses_example =
    oversized_save-lapses (pos 7) oversized 10_000_000_000 (at 200) lapsed refl refl (ground arith)
      (ground arith) saved_too_long (ground arith)
