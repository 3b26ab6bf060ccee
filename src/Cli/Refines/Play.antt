-- ===== src/Cli/Refines/Play.antt =====
-- internal/infrastructure/driver/cliadapter/cli.go: what each verb does to the database.
use keep_it_up.Prelude.{List, [], ◌∷◌, String, refl, inl}
use keep_it_up.Db.{Db}
use keep_it_up.Usecase.{Clock}
use keep_it_up.Requests.{save_game, resume_game, pause_game, Platform, Faults, faulty, perform}
use keep_it_up.Requests.Steady.{save-Steady, resume-Steady, pause-Steady}
use keep_it_up.Cli.Play.{
  run_auth, run_fetch, run_command, auth_validate, auth_hash, auth_check, fetch_games, fetch_shared,
  fetch_interactions, command_save, command_resume, command_pause,
}
use keep_it_up.Cli.Refines.{
  Refines, Says, refused-Refines, verb-Refines, with_id-Refines, with_number-Refines,
  answered-Refines, done-Refines,
}

module _ (p : Platform) (f : Faults) (clock : Clock) (db : Db) where
  abbrev p' : Platform
  p' = faulty p f

  auth_validate-Refines :
      (args : List String)
      → Refines p f clock db ("auth" ∷ "validate-passwd" ∷ args) (auth_validate p' clock db args)
  auth_validate-Refines [] = inl refl
  auth_validate-Refines (w ∷ []) = answered-Refines p f clock db _ _ _ _
  auth_validate-Refines (_ ∷ _ ∷ _) = inl refl

  auth_hash-Refines :
      (args : List String)
      → Refines p f clock db ("auth" ∷ "hash-passwd" ∷ args) (auth_hash p' clock db args)
  auth_hash-Refines [] = inl refl
  auth_hash-Refines (w ∷ []) = answered-Refines p f clock db _ _ _ _
  auth_hash-Refines (_ ∷ _ ∷ _) = inl refl

  auth_check-Refines :
      (args : List String)
      → Refines p f clock db ("auth" ∷ "check-passwd" ∷ args) (auth_check p' clock db args)
  auth_check-Refines [] = inl refl
  auth_check-Refines (_ ∷ []) = inl refl
  auth_check-Refines (u ∷ w ∷ []) = answered-Refines p f clock db _ _ _ _
  auth_check-Refines (_ ∷ _ ∷ _ ∷ _) = inl refl

  fetch_games-Refines :
      (args : List String)
      → Refines p f clock db ("fetch" ∷ "games" ∷ args) (fetch_games p' clock db args)
  fetch_games-Refines [] = inl refl
  fetch_games-Refines (i ∷ []) =
      with_id-Refines p f clock db _ _ _ _ (λ pl _. answered-Refines p f clock db _ _ _ _)
  fetch_games-Refines (_ ∷ _ ∷ _) = inl refl

  fetch_shared-Refines :
      (args : List String)
      → Refines p f clock db ("fetch" ∷ "shared" ∷ args) (fetch_shared p' clock db args)
  fetch_shared-Refines [] = inl refl
  fetch_shared-Refines (i ∷ []) =
      with_id-Refines p f clock db _ _ _ _ (λ g _. answered-Refines p f clock db _ _ _ _)
  fetch_shared-Refines (_ ∷ _ ∷ _) = inl refl

  command_save-Refines :
      (args : List String)
      → Refines p f clock db ("command" ∷ "save" ∷ args) (command_save p' clock db args)
  unfolding perform Says
  command_save-Refines [] = inl refl
  command_save-Refines (_ ∷ []) = inl refl
  command_save-Refines (_ ∷ _ ∷ []) = inl refl
  command_save-Refines (i ∷ j ∷ d ∷ []) = with_id-Refines p f clock db _ _ _ _ (λ g e_g.
      with_id-Refines p f clock db _ _ _ _ (λ pl e_pl.
        with_number-Refines p f clock db _ _ _ _ (λ n e_n.
          done-Refines p f clock db _ (save_game clock g pl n) _ _ _ refl
            (i, j, d, refl, e_g, e_pl, e_n) (save-Steady p'.sqlite p.codec clock db g pl n) refl)))
  command_save-Refines (_ ∷ _ ∷ _ ∷ _ ∷ _) = inl refl

  command_resume-Refines :
      (args : List String)
      → Refines p f clock db ("command" ∷ "resume" ∷ args) (command_resume p' clock db args)
  unfolding perform Says
  command_resume-Refines [] = inl refl
  command_resume-Refines (_ ∷ []) = inl refl
  command_resume-Refines (i ∷ j ∷ []) = with_id-Refines p f clock db _ _ _ _ (λ g e_g.
      with_id-Refines p f clock db _ _ _ _ (λ pl e_pl.
        done-Refines p f clock db _ (resume_game clock g pl) _ _ _ refl (i, j, refl, e_g, e_pl)
          (resume-Steady p'.sqlite p.codec clock db g pl) refl))
  command_resume-Refines (_ ∷ _ ∷ _ ∷ _) = inl refl

  command_pause-Refines :
      (args : List String)
      → Refines p f clock db ("command" ∷ "pause" ∷ args) (command_pause p' clock db args)
  unfolding perform Says
  command_pause-Refines [] = inl refl
  command_pause-Refines (_ ∷ []) = inl refl
  command_pause-Refines (i ∷ j ∷ []) = with_id-Refines p f clock db _ _ _ _ (λ g e_g.
      with_id-Refines p f clock db _ _ _ _ (λ pl e_pl.
        done-Refines p f clock db _ (pause_game clock g pl) _ _ _ refl (i, j, refl, e_g, e_pl)
          (pause-Steady p'.sqlite p.codec clock db g pl) refl))
  command_pause-Refines (_ ∷ _ ∷ _ ∷ _) = inl refl

  fetch_interactions-Refines :
      (args : List String)
      → Refines p f clock db ("fetch" ∷ "interactions" ∷ args) (fetch_interactions p' clock db args)
  fetch_interactions-Refines [] = inl refl
  fetch_interactions-Refines (_ ∷ []) = inl refl
  fetch_interactions-Refines (i ∷ l ∷ []) = with_id-Refines p f clock db _ _ _ _ (λ g _.
      with_number-Refines p f clock db _ _ _ _ (λ n _. answered-Refines p f clock db _ _ _ _))
  fetch_interactions-Refines (i ∷ l ∷ o ∷ []) = with_id-Refines p f clock db _ _ _ _ (λ g _.
      with_number-Refines p f clock db _ _ _ _ (λ n _.
        with_number-Refines p f clock db _ _ _ _ (λ m _. answered-Refines p f clock db _ _ _ _)))
  fetch_interactions-Refines (_ ∷ _ ∷ _ ∷ _ ∷ _) = inl refl

  ruleset run_auth_rules =
      (refused-Refines, verb-Refines, auth_validate-Refines, auth_hash-Refines, auth_check-Refines)

  pub run_auth-Refines :
      (args : List String) → Refines p f clock db ("auth" ∷ args) (run_auth p' clock db args)
  unfolding run_auth
  run_auth-Refines [] = inl refl
  run_auth-Refines (verb ∷ rest) = search run_auth_rules depth 9

  ruleset run_fetch_rules = (
    refused-Refines, verb-Refines, fetch_games-Refines, fetch_shared-Refines,
    fetch_interactions-Refines,
  )

  pub run_fetch-Refines :
      (args : List String) → Refines p f clock db ("fetch" ∷ args) (run_fetch p' clock db args)
  unfolding run_fetch
  run_fetch-Refines [] = inl refl
  run_fetch-Refines (verb ∷ rest) = search run_fetch_rules depth 9

  ruleset run_command_rules = (
    refused-Refines, verb-Refines, command_save-Refines, command_resume-Refines,
    command_pause-Refines,
  )

  pub run_command-Refines :
      (args : List String) → Refines p f clock db ("command" ∷ args) (run_command p' clock db args)
  unfolding run_command
  run_command-Refines [] = inl refl
  run_command-Refines (verb ∷ rest) = search run_command_rules depth 9
