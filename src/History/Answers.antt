-- ===== src/History/Answers.antt =====
-- internal/application/usecase/data_fetching.go: `GetSharedData` after a history of calls.
use keep_it_up.Prelude.{
  ℤ, List, ◌∙◌, refl, map_err, pos, none, [], ◌∷◌, ◌≡◌, arith, filter, ◌≤ℤ◌, ltb_ℤ-false_iff, ok,
}
use keep_it_up.Time.{Time}
use keep_it_up.Model.{SharedData}
use keep_it_up.SharedData.{compute_valid, build_shared_data}
use keep_it_up.SharedData.Append.{build_shared_data-replay_from}
use keep_it_up.Stamp.{IsCodec}
use keep_it_up.Db.{Sqlite, IsSqlite, Db, InteractionRow, empty_db, list_interactions_for_replay}
use keep_it_up.Db.Sort.{order_by-IsSortedBy}
use keep_it_up.Db.Trigger.{of_game, earlier}
use keep_it_up.Db.Fetching.{query_interactions_for_replay}
use keep_it_up.Usecase.{build_failed}
use keep_it_up.Usecase.DataFetching.{get_shared_data}
use keep_it_up.Requests.{
  Request, save_game, resume_game, pause_game, add_game_named, update_game, delete_game,
  grant_access, revoke_access, add_player_named, rename_player, change_password, force_password,
  delete_player, Platform, Faults, with_faults, perform, perform_all,
}
use keep_it_up.History.Rows.{IsConsistent, IsConsistent-nil}
use keep_it_up.History.Run.{IsSound}
use keep_it_up.History.Commands.{IsClock, save-IsSound, resume-IsSound, pause-IsSound}
use keep_it_up.History.Others.{
  add_game_keeps, update_keeps, grant_keeps, revoke_keeps, rename_keeps, remove_player_keeps,
  update_password_force-Keeps, update_password-Keeps, add_player-Keeps, delete-IsSound,
  IsSqlite-with_faults, IsCodec-with_faults, IsConsistent-with_faults, IsConsistent-without_faults,
}

-- The clock readings of a call can be stored.
abbrev pub HasClock : Request → Type 0
HasClock (save_game clock _ _ _) = IsClock clock
HasClock (resume_game clock _ _) = IsClock clock
HasClock (pause_game clock _ _) = IsClock clock
HasClock _ = Unit

abbrev pub HaveClocks : List (Faults × Request) → Type 0
HaveClocks [] = Unit
HaveClocks ((f, r) ∷ rest) = HasClock r × HaveClocks rest

module _ (p : Platform) (laws : IsSqlite p.sqlite) (codec : IsCodec p.sqlite p.codec) where
  module _ (f : Faults) where
    abbrev q : Sqlite
    q = with_faults p.sqlite f

    perform_with_faults :
        (r : Request) (db : Db)
        → HasClock r
        → IsSound q p.codec db.interactions
        → IsSound q p.codec (perform p f r db).interactions
    unfolding perform
    perform_with_faults (save_game clock g pl n) db k s =
        (save-IsSound q p.codec (IsSqlite-with_faults p.sqlite f laws)
          (IsCodec-with_faults p.sqlite f p.codec codec) db clock g pl s k n).left
    perform_with_faults (resume_game clock g pl) db k s =
        (resume-IsSound q p.codec (IsSqlite-with_faults p.sqlite f laws)
          (IsCodec-with_faults p.sqlite f p.codec codec) db clock g pl s k).left
    perform_with_faults (pause_game clock g pl) db k s =
        (pause-IsSound q p.codec (IsSqlite-with_faults p.sqlite f laws)
          (IsCodec-with_faults p.sqlite f p.codec codec) db clock g pl s k).left
    perform_with_faults (add_game_named name) db k s = rw (add_game_keeps q db name) s
    perform_with_faults (update_game g name) db k s = rw (update_keeps q db g name) s
    perform_with_faults (delete_game g) db k s =
        delete-IsSound q p.codec (IsSqlite-with_faults p.sqlite f laws)
          (IsCodec-with_faults p.sqlite f p.codec codec) db g s
    perform_with_faults (grant_access g pl) db k s = rw (grant_keeps q db g pl) s
    perform_with_faults (revoke_access g pl) db k s = rw (revoke_keeps q db g pl) s
    perform_with_faults (add_player_named name username password) db k s =
        rw (add_player-Keeps q p.bcrypt db p.is_letter p.is_digit name username password).kept s
    perform_with_faults (rename_player pl name) db k s = rw (rename_keeps q p.bcrypt db pl name) s
    perform_with_faults (change_password username current new) db k s =
        rw (update_password-Keeps q p.bcrypt db username current new).kept s
    perform_with_faults (force_password username password) db k s =
        rw (update_password_force-Keeps q p.bcrypt db username password).kept s
    perform_with_faults (delete_player pl) db k s = rw (remove_player_keeps q p.bcrypt db pl) s

    perform-IsSound :
        (r : Request) (db : Db)
        → HasClock r
        → IsSound p.sqlite p.codec db.interactions
        → IsSound p.sqlite p.codec (perform p f r db).interactions
    perform-IsSound r db k s = record {
      at_game = λ g. IsConsistent-without_faults p.sqlite f p.codec g _ (
          (perform_with_faults r db k (record {
            at_game = λ g'. IsConsistent-with_faults p.sqlite f p.codec g' _ (s.at_game g');
          })).at_game
            g);
    }

  pub perform_all-IsSound :
      (history : List (Faults × Request)) (db : Db)
      → HaveClocks history
      → IsSound p.sqlite p.codec db.interactions
      → IsSound p.sqlite p.codec (perform_all p history db).interactions
  unfolding perform_all
  perform_all-IsSound [] db k s = s
  perform_all-IsSound ((f, r) ∷ rest) db k s =
      perform_all-IsSound rest (perform p f r db) k.1 (perform-IsSound f r db k.0 s)

  -- `GetSharedData` on the rows of a game.
  module _ (db : Db) (game_id : ℤ) (rows : List InteractionRow)
      (selected : filter (of_game game_id) db.interactions ≡ rows)
      (con : IsConsistent p.sqlite p.codec game_id rows)
      (up : p.sqlite.fault list_interactions_for_replay ≡ none) where
    query-ok : query_interactions_for_replay p.sqlite db game_id ≡ ok rows
    unfolding query_interactions_for_replay
    query-ok =
        let sorted = order_by-IsSortedBy (earlier p.sqlite) rows con.sorted in
        ground (arith, sorted, selected)

    pub get_shared_data-build :
        (now : Time)
        → pos 1 ≤ℤ game_id
        → get_shared_data p.sqlite p.codec db (ok now) game_id
          ≡ map_err build_failed (build_shared_data game_id con.log now)
    unfolding get_shared_data
    get_shared_data-build now positive =
        rw ((ltb_ℤ-false_iff game_id (pos 1)).1 positive, query-ok, con.mapped) refl

  -- `GetSharedData` on sound rows.
  get_shared_data-ok :
      (db : Db) (game_id : ℤ) (now : Time)
      → IsSound p.sqlite p.codec db.interactions
      → pos 1 ≤ℤ game_id
      → p.sqlite.fault list_interactions_for_replay ≡ none
      → (d : SharedData) × (get_shared_data p.sqlite p.codec db (ok now) game_id ≡ ok d)
  get_shared_data-ok db game_id now s positive up =
      let con = s.at_game game_id in
      (
        compute_valid con.state now,
        get_shared_data-build db game_id (filter (of_game game_id) db.interactions) refl con up now
              positive
            ∙ rw (build_shared_data-replay_from game_id con.log now, con.replays) refl,
      )

  -- After any history of calls on an empty database, in which queries may have failed and the clock
  -- readings were in any order but storable, `GetSharedData` of a valid game id succeeds at every
  -- time at which its query does: no recorded interaction makes the replay fail.
  pub replay_always_succeeds :
      (history : List (Faults × Request)) (game_id : ℤ) (now : Time)
      → HaveClocks history
      → pos 1 ≤ℤ game_id
      → p.sqlite.fault list_interactions_for_replay ≡ none
      → (d : SharedData) × (get_shared_data p.sqlite p.codec
            (perform_all p history empty_db)
            (ok now)
            game_id
          ≡ ok d)
  unfolding filter
  replay_always_succeeds history game_id now k positive up =
      get_shared_data-ok (perform_all p history empty_db) game_id now
        (perform_all-IsSound history empty_db k
          (record { at_game = λ g. IsConsistent-nil p.sqlite p.codec g }))
        positive up
