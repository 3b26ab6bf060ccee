-- ===== src/Cli/Refines/Manage.antt =====
-- internal/infrastructure/driver/cliadapter/cli.go: what each verb does to the database.
use keep_it_up.Prelude.{List, [], ◌∷◌, String, refl, inl}
use keep_it_up.Db.{Db}
use keep_it_up.Usecase.{Clock}
use keep_it_up.Requests.{
  add_game_named, update_game, delete_game, grant_access, revoke_access, add_player_named,
  rename_player, change_password, force_password, delete_player, Platform, Faults, faulty, perform,
}
use keep_it_up.Requests.Steady.{
  add_game-Steady, update-Steady, delete-Steady, grant-Steady, revoke-Steady, rename-Steady,
  remove_player-Steady, update_password-Steady, update_password_force-Steady, add_player-Steady,
}
use keep_it_up.Cli.Manage.{
  run_game, run_access, run_player, game_add, game_update, game_delete, access_grant, access_revoke,
  access_check, player_add, player_rename, player_passwd, player_passwd_force, player_delete,
}
use keep_it_up.Cli.Refines.{
  Refines, Says, refused-Refines, verb-Refines, with_id-Refines, answered-Refines, done-Refines,
}

module _ (p : Platform) (f : Faults) (clock : Clock) (db : Db) where
  abbrev p' : Platform
  p' = faulty p f

  game_add-Refines :
      (args : List String) → Refines p f clock db ("game" ∷ "add" ∷ args) (game_add p' db args)
  unfolding perform Says
  game_add-Refines [] = inl refl
  game_add-Refines (n ∷ []) =
      done-Refines p f clock db _ (add_game_named n) _ _ _ tt refl (add_game-Steady p'.sqlite db n)
        refl
  game_add-Refines (_ ∷ _ ∷ _) = inl refl

  game_update-Refines :
      (args : List String)
      → Refines p f clock db ("game" ∷ "update" ∷ args) (game_update p' db args)
  unfolding perform Says
  game_update-Refines [] = inl refl
  game_update-Refines (_ ∷ []) = inl refl
  game_update-Refines (i ∷ n ∷ []) = with_id-Refines p f clock db _ _ _ _ (λ g e_g.
      done-Refines p f clock db _ (update_game g n) _ _ _ tt (i, refl, e_g)
        (update-Steady p'.sqlite db g n) refl)
  game_update-Refines (_ ∷ _ ∷ _ ∷ _) = inl refl

  game_delete-Refines :
      (args : List String)
      → Refines p f clock db ("game" ∷ "delete" ∷ args) (game_delete p' db args)
  unfolding perform Says
  game_delete-Refines [] = inl refl
  game_delete-Refines (i ∷ []) = with_id-Refines p f clock db _ _ _ _ (λ g e_g.
      done-Refines p f clock db _ (delete_game g) _ _ _ tt (i, refl, e_g)
        (delete-Steady p'.sqlite db g) refl)
  game_delete-Refines (_ ∷ _ ∷ _) = inl refl

  access_grant-Refines :
      (args : List String)
      → Refines p f clock db ("access" ∷ "grant" ∷ args) (access_grant p' db args)
  unfolding perform Says
  access_grant-Refines [] = inl refl
  access_grant-Refines (_ ∷ []) = inl refl
  access_grant-Refines (i ∷ j ∷ []) = with_id-Refines p f clock db _ _ _ _ (λ g e_g.
      with_id-Refines p f clock db _ _ _ _ (λ pl e_pl.
        done-Refines p f clock db _ (grant_access g pl) _ _ _ tt (i, j, refl, e_g, e_pl)
          (grant-Steady p'.sqlite db g pl) refl))
  access_grant-Refines (_ ∷ _ ∷ _ ∷ _) = inl refl

  access_revoke-Refines :
      (args : List String)
      → Refines p f clock db ("access" ∷ "revoke" ∷ args) (access_revoke p' db args)
  unfolding perform Says
  access_revoke-Refines [] = inl refl
  access_revoke-Refines (_ ∷ []) = inl refl
  access_revoke-Refines (i ∷ j ∷ []) = with_id-Refines p f clock db _ _ _ _ (λ g e_g.
      with_id-Refines p f clock db _ _ _ _ (λ pl e_pl.
        done-Refines p f clock db _ (revoke_access g pl) _ _ _ tt (i, j, refl, e_g, e_pl)
          (revoke-Steady p'.sqlite db g pl) refl))
  access_revoke-Refines (_ ∷ _ ∷ _ ∷ _) = inl refl

  access_check-Refines :
      (args : List String)
      → Refines p f clock db ("access" ∷ "check" ∷ args) (access_check p' db args)
  access_check-Refines [] = inl refl
  access_check-Refines (_ ∷ []) = inl refl
  access_check-Refines (i ∷ j ∷ []) =
      with_id-Refines p f clock db _ _ _ _ (λ g _.
        with_id-Refines p f clock db _ _ _ _ (λ pl _. answered-Refines p f clock db _ _ _ _))
  access_check-Refines (_ ∷ _ ∷ _ ∷ _) = inl refl

  player_add-Refines :
      (args : List String) → Refines p f clock db ("player" ∷ "add" ∷ args) (player_add p' db args)
  unfolding perform Says
  player_add-Refines [] = inl refl
  player_add-Refines (_ ∷ []) = inl refl
  player_add-Refines (_ ∷ _ ∷ []) = inl refl
  player_add-Refines (n ∷ u ∷ w ∷ []) =
      done-Refines p f clock db _ (add_player_named n u w) _ _ _ tt refl
        (add_player-Steady p'.sqlite p.bcrypt db p.is_letter p.is_digit n u w) refl
  player_add-Refines (_ ∷ _ ∷ _ ∷ _ ∷ _) = inl refl

  player_rename-Refines :
      (args : List String)
      → Refines p f clock db ("player" ∷ "rename" ∷ args) (player_rename p' db args)
  unfolding perform Says
  player_rename-Refines [] = inl refl
  player_rename-Refines (_ ∷ []) = inl refl
  player_rename-Refines (i ∷ n ∷ []) = with_id-Refines p f clock db _ _ _ _ (λ pl e_pl.
      done-Refines p f clock db _ (rename_player pl n) _ _ _ tt (i, refl, e_pl)
        (rename-Steady p'.sqlite p.bcrypt db pl n) refl)
  player_rename-Refines (_ ∷ _ ∷ _ ∷ _) = inl refl

  player_passwd-Refines :
      (args : List String)
      → Refines p f clock db ("player" ∷ "passwd" ∷ args) (player_passwd p' db args)
  unfolding perform Says
  player_passwd-Refines [] = inl refl
  player_passwd-Refines (_ ∷ []) = inl refl
  player_passwd-Refines (_ ∷ _ ∷ []) = inl refl
  player_passwd-Refines (u ∷ c ∷ w ∷ []) =
      done-Refines p f clock db _ (change_password u c w) _ _ _ tt refl
        (update_password-Steady p'.sqlite p.bcrypt db u c w) refl
  player_passwd-Refines (_ ∷ _ ∷ _ ∷ _ ∷ _) = inl refl

  player_passwd_force-Refines :
      (args : List String)
      → Refines p f clock db ("player" ∷ "passwd-force" ∷ args) (player_passwd_force p' db args)
  unfolding perform Says
  player_passwd_force-Refines [] = inl refl
  player_passwd_force-Refines (_ ∷ []) = inl refl
  player_passwd_force-Refines (u ∷ w ∷ []) =
      done-Refines p f clock db _ (force_password u w) _ _ _ tt refl
        (update_password_force-Steady p'.sqlite p.bcrypt db u w) refl
  player_passwd_force-Refines (_ ∷ _ ∷ _ ∷ _) = inl refl

  player_delete-Refines :
      (args : List String)
      → Refines p f clock db ("player" ∷ "delete" ∷ args) (player_delete p' db args)
  unfolding perform Says
  player_delete-Refines [] = inl refl
  player_delete-Refines (i ∷ []) = with_id-Refines p f clock db _ _ _ _ (λ pl e_pl.
      done-Refines p f clock db _ (delete_player pl) _ _ _ tt (i, refl, e_pl)
        (remove_player-Steady p'.sqlite p.bcrypt db pl) refl)
  player_delete-Refines (_ ∷ _ ∷ _) = inl refl

  ruleset run_game_rules =
      (refused-Refines, verb-Refines, game_add-Refines, game_update-Refines, game_delete-Refines)

  pub run_game-Refines :
      (args : List String) → Refines p f clock db ("game" ∷ args) (run_game p' db args)
  unfolding run_game
  run_game-Refines [] = inl refl
  run_game-Refines (verb ∷ rest) = search run_game_rules depth 9

  ruleset run_access_rules = (
    refused-Refines, verb-Refines, access_grant-Refines, access_revoke-Refines,
    access_check-Refines,
  )

  pub run_access-Refines :
      (args : List String) → Refines p f clock db ("access" ∷ args) (run_access p' db args)
  unfolding run_access
  run_access-Refines [] = inl refl
  run_access-Refines (verb ∷ rest) = search run_access_rules depth 9

  ruleset run_player_rules = (
    refused-Refines, verb-Refines, player_add-Refines, player_rename-Refines, player_passwd-Refines,
    player_passwd_force-Refines, player_delete-Refines,
  )

  pub run_player-Refines :
      (args : List String) → Refines p f clock db ("player" ∷ args) (run_player p' db args)
  unfolding run_player
  run_player-Refines [] = inl refl
  run_player-Refines (verb ∷ rest) = search run_player_rules depth 9
