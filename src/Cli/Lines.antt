-- ===== src/Cli/Lines.antt =====
-- internal/infrastructure/driver/cliadapter/cli.go: the line of a call.
use keep_it_up.Prelude.{
  ℤ, List, [], ◌∷◌, String, Option, none, some, ◌≡◌, refl, sym, ◌∙◌, ap, ok, err,
}
use keep_it_up.Number.{itoa}
use keep_it_up.Number.RoundTrip.{FitsInt64, parse_int-itoa}
use keep_it_up.Db.{Db}
use keep_it_up.Usecase.{Clock, Action}
use keep_it_up.Usecase.GameCommands.{save, pause, resume}
use keep_it_up.Requests.{
  Request, save_game, resume_game, pause_game, add_game_named, update_game, delete_game,
  grant_access, revoke_access, add_player_named, rename_player, change_password, force_password,
  delete_player, Platform, Faults, faulty, with_faults, perform,
}
use keep_it_up.Cli.{Output, CliError, invalid_id, Ran, with_id, with_number, done}
use keep_it_up.Cli.Manage.{run_game, run_access, run_player}
use keep_it_up.Cli.Play.{run_command}
use keep_it_up.Cli.Run.{run}
use keep_it_up.Cli.Refines.{Reads}

-- The arguments that ask for a call.
abbrev pub command_line : Request → List String
command_line (save_game _ g pl n) = "command" ∷ "save" ∷ itoa g ∷ itoa pl ∷ itoa n ∷ []
command_line (resume_game _ g pl) = "command" ∷ "resume" ∷ itoa g ∷ itoa pl ∷ []
command_line (pause_game _ g pl) = "command" ∷ "pause" ∷ itoa g ∷ itoa pl ∷ []
command_line (add_game_named name) = "game" ∷ "add" ∷ name ∷ []
command_line (update_game g name) = "game" ∷ "update" ∷ itoa g ∷ name ∷ []
command_line (delete_game g) = "game" ∷ "delete" ∷ itoa g ∷ []
command_line (grant_access g pl) = "access" ∷ "grant" ∷ itoa g ∷ itoa pl ∷ []
command_line (revoke_access g pl) = "access" ∷ "revoke" ∷ itoa g ∷ itoa pl ∷ []
command_line (add_player_named name username password) =
    "player" ∷ "add" ∷ name ∷ username ∷ password ∷ []
command_line (rename_player pl name) = "player" ∷ "rename" ∷ itoa pl ∷ name ∷ []
command_line (change_password username current new) =
    "player" ∷ "passwd" ∷ username ∷ current ∷ new ∷ []
command_line (force_password username new) = "player" ∷ "passwd-force" ∷ username ∷ new ∷ []
command_line (delete_player pl) = "player" ∷ "delete" ∷ itoa pl ∷ []

-- The numbers of a call fit in an int64.
abbrev pub FitsCall : Request → Type 0
FitsCall (save_game _ g pl n) = FitsInt64 g × FitsInt64 pl × FitsInt64 n
FitsCall (resume_game _ g pl) = FitsInt64 g × FitsInt64 pl
FitsCall (pause_game _ g pl) = FitsInt64 g × FitsInt64 pl
FitsCall (update_game g _) = FitsInt64 g
FitsCall (delete_game g) = FitsInt64 g
FitsCall (grant_access g pl) = FitsInt64 g × FitsInt64 pl
FitsCall (revoke_access g pl) = FitsInt64 g × FitsInt64 pl
FitsCall (rename_player pl _) = FitsInt64 pl
FitsCall (delete_player pl) = FitsInt64 pl
FitsCall _ = Unit

abbrev read_number : CliError → Db → (ℤ → Ran) → Option ℤ → Ran
read_number e db rest o = elim o [ none ↦ (err e, db) | some n ↦ rest n ]

-- A number written out is read again, and the rest of the verb goes on with it.
with_id-itoa :
    (cmd : String) (n : ℤ) (db : Db) (rest : ℤ → Ran)
    → FitsInt64 n
    → with_id cmd (itoa n) db rest ≡ rest n
with_id-itoa cmd n db rest h =
    ap (λ (o : Option ℤ). read_number (invalid_id cmd (itoa n)) db rest o) (parse_int-itoa n h)

with_number-itoa :
    (e : CliError) (n : ℤ) (db : Db) (rest : ℤ → Ran)
    → FitsInt64 n
    → with_number e (itoa n) db rest ≡ rest n
with_number-itoa e n db rest h = ap (λ (o : Option ℤ). read_number e db rest o) (parse_int-itoa n h)

done-db : {A : Type 0} (cmd : String) (line : A → Output) (a : Action A) → (done cmd line a).1 ≡ a.1
done-db cmd line (ok x, db) = refl
done-db cmd line (err e, db) = refl

db_after : {a b : Ran} {d : Db} → a ≡ b → b.1 ≡ d → a.1 ≡ d
db_after e h = ap (λ (x : Ran). x.1) e ∙ h

module _ (p : Platform) (f : Faults) (clock : Clock) (db : Db) where
  -- When the numbers of a call that changes the database fit in an int64, the command line that asks for it, run with the clock of
  -- the call, leaves the database that the call leaves.
  pub run-command_line :
      (r : Request)
      → FitsCall r
      → Reads clock r
      → (run (faulty p f) clock db (command_line r)).1 ≡ perform p f r db
  unfolding run run_game run_access run_player run_command perform
  run-command_line (save_game c g pl n) h e =
      db_after
        (with_id-itoa _ g db _ h.0 ∙ with_id-itoa _ pl db _ h.1 ∙ with_number-itoa _ n db _ h.2)
        (done-db _ _ _
          ∙ ap (λ (k : Clock). (save (with_faults p.sqlite f) p.codec k db g pl n).1) (sym e))
  run-command_line (resume_game c g pl) h e =
      db_after (with_id-itoa _ g db _ h.0 ∙ with_id-itoa _ pl db _ h.1) (
        done-db _ _ _
        ∙ ap (λ (k : Clock). (resume (with_faults p.sqlite f) p.codec k db g pl).1) (sym e))
  run-command_line (pause_game c g pl) h e =
      db_after (with_id-itoa _ g db _ h.0 ∙ with_id-itoa _ pl db _ h.1) (
        done-db _ _ _
        ∙ ap (λ (k : Clock). (pause (with_faults p.sqlite f) p.codec k db g pl).1) (sym e))
  run-command_line (add_game_named name) h e = done-db _ _ _
  run-command_line (update_game g name) h e = db_after (with_id-itoa _ g db _ h) (done-db _ _ _)
  run-command_line (delete_game g) h e = db_after (with_id-itoa _ g db _ h) (done-db _ _ _)
  run-command_line (grant_access g pl) h e =
      db_after (with_id-itoa _ g db _ h.0 ∙ with_id-itoa _ pl db _ h.1) (done-db _ _ _)
  run-command_line (revoke_access g pl) h e =
      db_after (with_id-itoa _ g db _ h.0 ∙ with_id-itoa _ pl db _ h.1) (done-db _ _ _)
  run-command_line (add_player_named name username password) h e = done-db _ _ _
  run-command_line (rename_player pl name) h e = db_after (with_id-itoa _ pl db _ h) (done-db _ _ _)
  run-command_line (change_password username current new) h e = done-db _ _ _
  run-command_line (force_password username new) h e = done-db _ _ _
  run-command_line (delete_player pl) h e = db_after (with_id-itoa _ pl db _ h) (done-db _ _ _)
