-- ===== src/Usecase/AccessManagement.antt =====
-- internal/application/usecase/access_management.go
pub mod Laws
use keep_it_up.Prelude.{ℤ, Bool, Result, ok, err, map_err}
use keep_it_up.Db.{
  Sqlite, Db, AccessRow, DbError, grant_player_access, revoke_player_access, check_player_access,
}
use keep_it_up.Db.Access.{query_grant_access, query_revoke_access, query_check_access}
use keep_it_up.Usecase.{Error, query_failed, Action, with_ids}

abbrev granted : Result DbError AccessRow × Db → Action Unit
granted (ok a, db) = (ok tt, db)
granted (err e, db) = (err (query_failed grant_player_access e), db)

module _ (q : Sqlite) (db : Db) (game_id player_id : ℤ) where
  -- `GrantPlayerAccess`
  unfoldable pub grant : Action Unit
  unfolding query_grant_access
  grant =
      with_ids game_id player_id (λ e. (err e, db))
        (granted (query_grant_access q db game_id player_id))

  -- `RevokePlayerAccess`
  unfoldable pub revoke : Action Unit
  unfolding query_revoke_access
  revoke =
      with_ids game_id player_id (λ e. (err e, db))
        (let (r, db') = query_revoke_access q db game_id player_id in
          (map_err (query_failed revoke_player_access) r, db'))

  -- `CheckPlayerAccess`
  unfoldable pub check : Result Error Bool
  unfolding query_check_access
  check =
      with_ids game_id player_id (λ e. err e)
        (map_err (query_failed check_player_access) (query_check_access q db game_id player_id))
