-- ===== src/Usecase/AccessManagement/Laws.antt =====
-- internal/application/usecase/access_management.go and `DeleteGame` of game_management.go: the
-- changes of the access table against `CheckPlayerAccess`.
use keep_it_up.Prelude.{
  ℤ, pos, Bool, true, false, ◌&&◌, ◌||◌, not, none, List, [], ◌∷◌, ◌++◌, ◌≡◌, ◌↔◌, ap, Bool-cases,
  inl, inr, refl, ◌∙◌, arith, any, any-append, filter, ◌==ℤ◌, ==ℤ_iff, ◌≤ℤ◌, if◌then◌else◌, ok,
}
use keep_it_up.Db.{Sqlite, Db, AccessRow, check_player_access}
use keep_it_up.Db.Access.{is_access, query_grant_access, query_revoke_access, query_check_access}
use keep_it_up.Db.Games.{query_delete_game}
use keep_it_up.Usecase.AccessManagement.{grant, revoke, check}
use keep_it_up.Usecase.GameManagement.{delete}

-- `WHERE game_id = ? AND player_id = ?`, of the rows that are left after deleting some.
any-filter-not :
    (p r : AccessRow → Bool) (l : List AccessRow)
    → ((a : AccessRow) → r a ≡ true → p a ≡ false)
    → any p (filter (λ a. not (r a)) l) ≡ any p l
unfolding any filter
any-filter-not p r [] h = refl
any-filter-not p r (a ∷ l) h = ground (arith, any-filter-not p r l h, h a)

any-filter-not_self :
    (p r : AccessRow → Bool) (l : List AccessRow)
    → ((a : AccessRow) → p a ≡ true → r a ≡ true)
    → any p (filter (λ a. not (r a)) l) ≡ false
unfolding any filter
any-filter-not_self p r [] h = refl
any-filter-not_self p r (a ∷ l) h = ground (arith, any-filter-not_self p r l h, h a)

-- `SELECT EXISTS` after the rows of another `WHERE` are deleted.
any-filter_and :
    (p r : AccessRow → Bool) (b : Bool) (l : List AccessRow)
    → ((a : AccessRow) → p a ≡ true → r a ≡ b)
    → any p (filter (λ a. not (r a)) l) ≡ (any p l && not b)
any-filter_and p r true l h = ground (arith, any-filter-not_self p r l h)
any-filter_and p r false l h = ground (arith, any-filter-not p r l (λ a e. ground (arith, h a)))

is_access_iff :
    (g pl : ℤ) (a : AccessRow) → (is_access g pl a ≡ true) ↔ ((a.game_id ≡ g) × (a.player_id ≡ pl))
is_access_iff g pl a = ground (arith, ==ℤ_iff a.game_id g, ==ℤ_iff a.player_id pl)

module _ (q : Sqlite) (db : Db) (g pl g' pl' : ℤ) (game : pos 1 ≤ℤ g) (player : pos 1 ≤ℤ pl)
    (up : q.fault check_player_access ≡ none) where
  -- The answer of a check that runs.
  check-any : (db' : Db) → check q db' g pl ≡ ok (any (is_access g pl) db'.access)
  unfolding check query_check_access
  check-any db' = ground arith

  -- The pair that a grant or a revocation names, and the one that is checked.
  abbrev same : Bool
  same = g' ==ℤ g && pl' ==ℤ pl

  grant-access :
      (grant q db g' pl').0 ≡ ok tt
      → (grant q db g' pl').1.access ≡ db.access ++ record { game_id = g'; player_id = pl' } ∷ []
  unfolding grant query_grant_access
  grant-access done = ground arith

  any-last :
      (l : List AccessRow) (a : AccessRow)
      → any (is_access g pl) (l ++ a ∷ []) ≡ (any (is_access g pl) l || is_access g pl a)
  unfolding any
  any-last l a = ground (arith, any-append (is_access g pl) l (a ∷ []))

  -- After `GrantPlayerAccess` succeeded, `CheckPlayerAccess` with valid ids, if its query runs,
  -- answers yes for the pair that was granted, and for every other pair whether the access was
  -- there before.
  pub check-grant :
      (grant q db g' pl').0 ≡ ok tt
      → check q (grant q db g' pl').1 g pl ≡ ok (any (is_access g pl) db.access || same)
  check-grant done =
      check-any (grant q db g' pl').1
      ∙ rw (grant-access done)
          (ap ok (any-last db.access (record { game_id = g'; player_id = pl' })))

  revoke-access :
      (revoke q db g' pl').0 ≡ ok tt
      → (revoke q db g' pl').1.access ≡ filter (λ a. not (is_access g' pl' a)) db.access
  unfolding revoke query_revoke_access
  revoke-access done = ground arith

  -- After `RevokePlayerAccess` succeeded, `CheckPlayerAccess` with valid ids, if its query runs,
  -- answers no for the pair that was revoked, and for every other pair whether the access was
  -- there before.
  pub check-revoke :
      (revoke q db g' pl').0 ≡ ok tt
      → check q (revoke q db g' pl').1 g pl ≡ ok (any (is_access g pl) db.access && not same)
  check-revoke done =
      check-any (revoke q db g' pl').1
      ∙ rw (revoke-access done) (
          ap ok (
            any-filter_and (is_access g pl) (is_access g' pl') same db.access
              (λ a e. ground (arith, is_access_iff g pl a))))

  delete-access :
      (delete q db g').0 ≡ ok tt
      → (delete q db g').1.access
        ≡ (if q.foreign_keys then filter (λ a. not (a.game_id ==ℤ g')) db.access else db.access)
  unfolding delete query_delete_game
  delete-access done = ground arith

  -- After `DeleteGame` succeeded, `CheckPlayerAccess` with valid ids, if its query runs, answers
  -- no for the deleted game if the connection enforces foreign keys; if it does not, and for
  -- every other game, it answers whether the access was there before.
  pub check-delete :
      (delete q db g').0 ≡ ok tt
      → check q (delete q db g').1 g pl
        ≡ ok (any (is_access g pl) db.access && not (q.foreign_keys && g' ==ℤ g))
  check-delete done =
      check-any (delete q db g').1
      ∙ rw (delete-access done) (
          ap ok (elim (Bool-cases q.foreign_keys) [
            | inl e ↦ rw e (
                any-filter_and (is_access g pl) (λ a. a.game_id ==ℤ g') (g' ==ℤ g) db.access
                  (λ a e. ground (arith, is_access_iff g pl a)))
            | inr e ↦ rw e (ground arith)
          ]))
