-- ===== src/History/Effects/Decides.antt =====
-- internal/application/usecase/data_fetching.go and the trigger (database/migrations): the status
-- that is shown, and the answers to the commands.
use keep_it_up.Prelude.{
  ℤ, pos, true, false, ◌||◌, Option, none, some, List, eq_iff, ◌≡◌, ◌≢◌, refl, sym, ◌∙◌, ap, arith,
  filter, ◌≤ℤ◌, ok, map_err,
}
use keep_it_up.Time.{Time}
use keep_it_up.Model.{playing, paused, SharedData}
use keep_it_up.SharedData.{compute_valid}
use keep_it_up.SharedData.Append.{build_shared_data-replay_from}
use keep_it_up.SharedData.Moves.{literals_differ}
use keep_it_up.Stamp.{IsCodec}
use keep_it_up.Db.{IsSqlite, Db, InteractionRow, empty_db, list_interactions_for_replay}
use keep_it_up.Db.Trigger.{latest, acted}
use keep_it_up.Usecase.{build_failed}
use keep_it_up.Usecase.DataFetching.{get_shared_data}
use keep_it_up.Requests.{Request, Platform, Faults, perform_all}
use keep_it_up.History.Rows.{status_of, IsConsistent-nil, latest-reverse}
use keep_it_up.History.Run.{IsSound}
use keep_it_up.History.Answers.{HaveClocks, get_shared_data-build, perform_all-IsSound}

-- The trigger's tests of the last row, from the status that the row names.
pub acted_paused : (o : Option InteractionRow) → status_of o ≡ paused → acted o "paused" ≡ true
acted_paused none h = absurd (ground (arith, h))
acted_paused (some r) h = ground (arith, h)

pub acted_not_paused : (o : Option InteractionRow) → status_of o ≢ paused → acted o "paused" ≡ false
acted_not_paused none h = refl
acted_not_paused (some r) h =
    ground (arith, eq_iff r.action "saved", eq_iff r.action "paused", literals_differ)

pub acted_playing :
    (o : Option InteractionRow)
    → status_of o ≡ playing
    → (acted o "saved" || acted o "resumed") ≡ true
acted_playing none h = absurd (ground (arith, h))
acted_playing (some r) h = ground (arith, h)

pub acted_not_playing :
    (o : Option InteractionRow)
    → status_of o ≢ playing
    → (acted o "saved" || acted o "resumed") ≡ false
acted_not_playing none h = refl
acted_not_playing (some r) h = ground (
  arith,
  eq_iff r.action "saved",
  eq_iff r.action "paused",
  eq_iff r.action "resumed",
  literals_differ,
)

module _ (p : Platform) (laws : IsSqlite p.sqlite) (codec : IsCodec p.sqlite p.codec)
    (history : List (Faults × Request)) (g : ℤ) (now : Time) (d : SharedData)
    (clocks : HaveClocks history) (positive : pos 1 ≤ℤ g)
    (up : p.sqlite.fault list_interactions_for_replay ≡ none)
    (shown : get_shared_data p.sqlite p.codec (perform_all p history empty_db) (ok now) g
      ≡ ok d) where
  abbrev db : Db
  db = perform_all p history empty_db

  sound : IsSound p.sqlite p.codec db.interactions
  unfolding filter
  sound =
      perform_all-IsSound p laws codec history empty_db clocks
        (record { at_game = λ g'. IsConsistent-nil p.sqlite p.codec g' })

  -- The status that is shown is the one that the trigger reads off the last row.
  pub shown-status_of : d.status ≡ status_of (latest p.sqlite db.interactions g)
  unfolding compute_valid
  shown-status_of =
      let con = sound.at_game g in
      let built =
        get_shared_data-build p laws codec db g _ refl con up now positive
        ∙ ap (map_err build_failed) (build_shared_data-replay_from g con.log now) in
      let same : d ≡ compute_valid con.state now = ground (arith, built, con.replays, shown) in
      ap (λ (s : SharedData). s.status) same
      ∙ con.status
      ∙ ap status_of (sym (latest-reverse p.sqlite laws db.interactions g con.sorted))
