-- ===== src/Usecase/GameCommands/Refusals.antt =====
-- internal/application/usecase/game_commands.go: the answers of the commands, on every branch.
use keep_it_up.Prelude.{
  ℤ, pos, true, false, ◌&&◌, ◌||◌, none, some, List, [], ◌∷◌, ◌++◌, String, ◌≡◌, refl, arith, ◌⊎◌,
  inl, inr, Bool-cases, ap, ◌∙◌, any, ltb_ℤ, ◌≤ℤ◌, Result, ok, err,
}
use keep_it_up.Time.{Time}
use keep_it_up.Stamp.{Codec}
use keep_it_up.Db.{
  Sqlite, IsSqlite, Db, InteractionRow, DbError, Query, save_while_paused, pause_not_playing,
  resume_not_paused, contains, save_game, pause_game, resume_game,
}
use keep_it_up.Db.Trigger.{of_game, latest, acted, trigger}
use keep_it_up.Db.Commands.{
  insert_interaction, writing_atomic, query_save, query_pause, query_resume,
}
use keep_it_up.Usecase.{
  Error, with_ids, invalid_game_id, invalid_player_id, short_duration, clock_failed, query_failed,
  cannot_save_while_paused, cannot_pause, cannot_resume, Clock, Action,
}
use keep_it_up.Usecase.GameCommands.{save, pause, resume, outcome, at_time}

module _ (q : Sqlite) (rows : List InteractionRow) (g : ℤ) (at : String)
    (in_order : any (λ r. of_game g r && q.text_before at r.occurred_at) rows ≡ false) where
  trigger_save :
      acted (latest q rows g) "paused" ≡ true → trigger q rows g "saved" at ≡ some save_while_paused
  unfolding trigger
  trigger_save h = ground arith

  trigger_pause :
      (acted (latest q rows g) "saved" || acted (latest q rows g) "resumed") ≡ false
      → trigger q rows g "paused" at ≡ some pause_not_playing
  unfolding trigger
  trigger_pause h = ground arith

  trigger_resume :
      acted (latest q rows g) "paused" ≡ false
      → trigger q rows g "resumed" at ≡ some resume_not_paused
  unfolding trigger
  trigger_resume h = ground arith

-- A call with valid ids, a clock that works, a query that runs, and no later interaction of the game.
pub record IsTimely (q : Sqlite) (c : Codec) (db : Db) (t : Time) (g pl : ℤ) : Type 0 where
  pub game : pos 1 ≤ℤ g
  pub player : pos 1 ≤ℤ pl
  pub in_order :
      any (λ r. of_game g r && q.text_before (c.format t) r.occurred_at) db.interactions ≡ false

module _ (q : Sqlite) (laws : IsSqlite q) (c : Codec) (db : Db) (t : Time) (g pl : ℤ)
    (timely : IsTimely q c db t g pl) where
  -- With valid ids, a duration of at least a second, a query that the engine runs, and a clock
  -- reading that no interaction of the game is after: while the last interaction of the game is a
  -- pause, `SaveGame` returns `ErrCannotSaveWhilePaused` and changes nothing.
  pub save_refused :
      (n : ℤ)
      → pos 1 ≤ℤ n
      → q.fault save_game ≡ none
      → acted (latest q db.interactions g) "paused" ≡ true
      → save q c (ok t) db g pl n ≡ (err cannot_save_while_paused, db)
  unfolding save query_save insert_interaction
  save_refused n long up h = ground (
    arith,
    trigger_save q db.interactions g (c.format t) timely.in_order h,
    laws.save_text save_while_paused,
  )

  -- With valid ids, a query that the engine runs, and a clock reading that no interaction of the
  -- game is after: unless the last interaction of the game is a save or a resumption, `PauseGame`
  -- returns `ErrCannotPause` and changes nothing.
  pub pause_refused :
      q.fault pause_game ≡ none
      → (acted (latest q db.interactions g) "saved" || acted (latest q db.interactions g) "resumed")
        ≡ false
      → pause q c (ok t) db g pl ≡ (err cannot_pause, db)
  unfolding pause query_pause insert_interaction
  pause_refused up h = ground (
    arith,
    trigger_pause q db.interactions g (c.format t) timely.in_order h,
    laws.pause_text pause_not_playing,
  )

  -- With valid ids, a query that the engine runs, and a clock reading that no interaction of the
  -- game is after: unless the last interaction of the game is a pause, `ResumeGame` returns
  -- `ErrCannotResume` and changes nothing.
  pub resume_refused :
      q.fault resume_game ≡ none
      → acted (latest q db.interactions g) "paused" ≡ false
      → resume q c (ok t) db g pl ≡ (err cannot_resume, db)
  unfolding resume query_resume insert_interaction
  resume_refused up h = ground (
    arith,
    trigger_resume q db.interactions g (c.format t) timely.in_order h,
    laws.resume_text resume_not_paused,
  )

-- Either an error, with the database unchanged, or success, with one interaction more.
abbrev pub IsAtomic : Db → Action Unit → Type 0
IsAtomic db r =
    ((e : Error) × (r ≡ (err e, db)))
    ⊎ ((row : InteractionRow) × (r
          ≡ (ok tt, record db { interactions = db.interactions ++ row ∷ [] })))

-- The end of a command that inserts a row.
outcome-IsAtomic :
    (q : Sqlite) (db : Db) (words : String) (sentinel : Error) (name : Query)
    (r : Result DbError InteractionRow × Db)
    → ((e : DbError) × (r ≡ (err e, db)))
      ⊎ ((row : InteractionRow) × (r
            ≡ (ok row, record db { interactions = db.interactions ++ row ∷ [] })))
    → IsAtomic db (outcome q words sentinel name r)
outcome-IsAtomic q db words sentinel name r (inl (x, p)) =
    elim (Bool-cases (contains (q.error_text x) words)) [
      | inl c ↦ inl (sentinel, ap (outcome q words sentinel name) p ∙ rw c refl)
      | inr c ↦ inl (query_failed name x, ap (outcome q words sentinel name) p ∙ rw c refl)
    ]
outcome-IsAtomic q db words sentinel name r (inr (row, p)) =
    inr (row, ap (outcome q words sentinel name) p)

at_time-IsAtomic :
    (clock : Clock) (db : Db) (rest : Time → Action Unit)
    → ((t : Time) → IsAtomic db (rest t))
    → IsAtomic db (at_time clock db rest)
at_time-IsAtomic (ok t) db rest h = h t
at_time-IsAtomic (err e) db rest h = inl (clock_failed e, refl)

with_ids-IsAtomic :
    (g pl : ℤ) (db : Db) (rest : Action Unit)
    → IsAtomic db rest
    → IsAtomic db (with_ids g pl (λ e. (err e, db)) rest)
with_ids-IsAtomic g pl db rest h = elim (Bool-cases (ltb_ℤ g (pos 1))) [
  | inl e ↦ rw e (inl (invalid_game_id g, refl))
  | inr e ↦ elim (Bool-cases (ltb_ℤ pl (pos 1))) [
    | inl e' ↦ rw (e, e') (inl (invalid_player_id pl, refl))
    | inr e' ↦ rw (e, e') h
  ]
]

module _ (q : Sqlite) (c : Codec) (clock : Clock) (db : Db) (g pl : ℤ) where
  -- Each of the three commands ends in an error or with one interaction more, for queries that have
  -- no effect when they fail.
  pub commands-IsAtomic :
      (n : ℤ)
      → IsAtomic db (save q c clock db g pl n)
        × IsAtomic db (resume q c clock db g pl)
        × IsAtomic db (pause q c clock db g pl)
  unfolding save resume pause query_save query_resume query_pause
  commands-IsAtomic n = (
    with_ids-IsAtomic g pl db _ (elim (Bool-cases (ltb_ℤ n (pos 1))) [
      | inl e ↦ rw e (inl (short_duration, refl))
      | inr e ↦ rw e (
          at_time-IsAtomic clock db _
            (λ t. outcome-IsAtomic q db _ _ _ _ (writing_atomic q db _ _)))
    ]),
    with_ids-IsAtomic g pl db _ (
        at_time-IsAtomic clock db _ (λ t. outcome-IsAtomic q db _ _ _ _ (writing_atomic q db _ _))),
    with_ids-IsAtomic g pl db _ (
        at_time-IsAtomic clock db _ (λ t. outcome-IsAtomic q db _ _ _ _ (writing_atomic q db _ _))),
  )
