-- ===== src/Usecase/Authentication/Login.antt =====
-- internal/application/usecase/authentication.go: logins that are let in and that are refused.
use keep_it_up.Prelude.{
  pos, Bool, false, ◌||◌, none, List, [], ◌∷◌, String, str_eq, eq_iff, ltb, ◌==ℤ◌, ==ℤ_iff, Result,
  ok, err, map_err, >>=-eq-ok, ◌≡◌, ◌≢◌, ap, ◌⊎◌, inl, inr, arith, Bool-cases, refl,
}
use keep_it_up.Model.{Player, AuthResult}
use keep_it_up.Text.{byte_len, trim_space, is_empty, is_password_valid}
use keep_it_up.Mapping.{to_domain_player}
use keep_it_up.Db.{Sqlite, Db, PlayerRow, no_rows, get_player_by_username}
use keep_it_up.Db.Players.{find_row, query_player_by_username}
use keep_it_up.Usecase.{query_failed, check_failed, bad_password, token_failed, unauthorized}
use keep_it_up.Usecase.Authentication.{
  Bcrypt, Comparison, matches, mismatch, failed, compared, no_player, check_player_password,
  login_player,
}

-- The row that a username selects.
abbrev pub has_username : String → PlayerRow → Bool
has_username username r = str_eq r.username username

pub find_row-username :
    (username : String) (rows : List PlayerRow) (r : PlayerRow)
    → find_row (has_username username) rows ≡ ok r
    → r.username ≡ username
find_row-username username [] r h = cc
find_row-username username (x ∷ rows) r h =
    ground (arith, find_row-username username rows r, eq_iff x.username username)

module _ (q : Sqlite) (b : Bcrypt) (db : Db) (username password : String) where
  query_username-ok :
      (r : PlayerRow)
      → query_player_by_username q db username ≡ ok r
      → find_row (has_username username) db.players ≡ ok r
  unfolding query_player_by_username
  query_username-ok r h = ground arith

  compared-player :
      (r : PlayerRow) (c : Comparison) (p : Player)
      → compared r c ≡ ok p
      → ((c ≡ matches) × (p ≡ to_domain_player r)) ⊎ (p ≡ no_player)
  compared-player r matches p h = inl (refl, ground arith)
  compared-player r mismatch p h = inr (ground arith)
  compared-player r (failed e) p h = cc

  -- A check that succeeds has found the player's row and compared the password with its hash.
  pub check_player_password-ok :
      (p : Player)
      → check_player_password q b db username password ≡ ok p
      → p.id ≢ pos 0
      → (r : PlayerRow) × (find_row (has_username username) db.players ≡ ok r)
        × (b.compare r.hashed_password password ≡ matches)
        × (p ≡ to_domain_player r)
  unfolding check_player_password
  check_player_password-ok p h n = elim (Bool-cases (ltb (byte_len username) 3)) [
    | inl e ↦ absurd (ground arith)
    | inr e ↦
        let (valid, is_valid, rest) =
          >>=-eq-ok (map_err bad_password (is_password_valid password)) _ (rw e at h) in
        let (r, found, cmp) =
          >>=-eq-ok
            (map_err (query_failed get_player_by_username) (query_player_by_username q db username))
            _ rest in
        elim (compared-player r (b.compare r.hashed_password password) p cmp) [
          | inl (m, same) ↦ (r, query_username-ok r (ground arith), m, same)
          | inr same ↦ absurd (n (ap (λ (x : Player). x.id) same))
        ]
  ]

  -- Whoever `LoginPlayer` lets in has the username that was given, the password matches the hash
  -- that is stored for it, and the token is the one generated for that player.
  pub login_player_sound :
      (generate_token : Player → Result String String) (a : AuthResult)
      → login_player q b db generate_token username password ≡ ok a
      → (r : PlayerRow) × (find_row (has_username username) db.players ≡ ok r)
        × (r.username ≡ username)
        × (b.compare r.hashed_password password ≡ matches)
        × (a.player ≡ to_domain_player r)
        × (generate_token (to_domain_player r) ≡ ok a.token)
  unfolding login_player
  login_player_sound generate_token a h =
      elim (Bool-cases (is_empty (trim_space username) || is_empty (trim_space password))) [
        | inl e ↦ absurd (ground arith)
        | inr e ↦
            let (p, checked, rest) =
              >>=-eq-ok (map_err check_failed (check_player_password q b db username password)) _
                (rw e at h) in
            elim (Bool-cases (p.id ==ℤ pos 0)) [
              | inl z ↦ absurd (ground arith)
              | inr z ↦
                  let (r, found, m, same) =
                    check_player_password-ok p (ground arith)
                      (λ zero. ground (arith, ==ℤ_iff p.id (pos 0))) in
                  let (token, made, done) =
                    >>=-eq-ok (map_err token_failed (generate_token p)) _ (rw z at rest) in
                  (
                    r,
                    found,
                    find_row-username username db.players r found,
                    m,
                    ground (arith, same, done),
                    ground (arith, same, done, made),
                  )
            ]
      ]

  -- The preconditions that `LoginPlayer` and `CheckPlayerPassword` test before any query.
  pub record IsAttempt : Type 0 where
    pub has_name : is_empty (trim_space username) ≡ false
    pub has_password : is_empty (trim_space password) ≡ false
    pub long : ltb (byte_len username) 3 ≡ false
    pub valid : is_password_valid password ≡ ok tt
    pub up : q.fault get_player_by_username ≡ none

  -- If the name and the password pass the checks before the query and the query runs, a login
  -- with a wrong password for the player who has the username is `ErrUnauthorized`.
  pub login_player-mismatch :
      (generate_token : Player → Result String String) (r : PlayerRow)
      → IsAttempt
      → find_row (has_username username) db.players ≡ ok r
      → b.compare r.hashed_password password ≡ mismatch
      → login_player q b db generate_token username password ≡ err unauthorized
  unfolding login_player check_player_password query_player_by_username
  login_player-mismatch generate_token r t found w = ground arith

  -- If the name and the password pass the checks before the query and the query runs, a login
  -- with a username that no player has is not `ErrUnauthorized`: it is the failure of the query,
  -- that there is no row, wrapped.
  pub login_player-unknown :
      (generate_token : Player → Result String String)
      → IsAttempt
      → find_row (has_username username) db.players ≡ err no_rows
      → login_player q b db generate_token username password
        ≡ err (check_failed (query_failed get_player_by_username no_rows))
  unfolding login_player check_player_password query_player_by_username
  login_player-unknown generate_token t found = ground arith
