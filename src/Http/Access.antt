-- ===== src/Http/Access.antt =====
-- internal/infrastructure/driver/httpadapter: the calls that are made behind the access check.
use keep_it_up.Prelude.{
  ℤ, pos, Bool, true, false, Option, none, some, String, ltb_ℤ, Result, ok, err, ◌≡◌, refl, ap, ◌⊎◌,
  inl, inr, ◌≤ℤ◌, ltb_ℤ-false_iff, Bool-cases, arith,
}
use keep_it_up.Db.{Db}
use keep_it_up.Usecase.{Error, Clock, Action}
use keep_it_up.Usecase.AccessManagement.{check}
use keep_it_up.Usecase.GameCommands.{save}
use keep_it_up.Requests.{
  Request, save_game, resume_game, pause_game, Platform, Faults, faulty, perform,
}
use keep_it_up.Requests.Steady.{Steady, save-Steady}
use keep_it_up.Http.{
  User, HttpRequest, HttpAdapter, Handled, no_content, player_id, bad_request_with, unauthorised,
}
use keep_it_up.Http.Query.{game_id_from_query}
use keep_it_up.Http.Handlers.{
  Answer, given, access_checked, granted_or, denied, commanded, save_for,
}
use keep_it_up.Http.Serve.{Endpoint, post_save, post_play, post_pause, Middleware, on_db}

-- The call that an endpoint makes for a game and a player.
abbrev pub Asks : Endpoint → HttpRequest → Clock → ℤ → ℤ → Request → Type 0
Asks post_save r clock g id call =
    (n : ℤ) × (r.save_body ≡ ok n) × (pos 1 ≤ℤ n) × (call ≡ save_game clock g id n)
Asks post_play r clock g id call = call ≡ resume_game clock g id
Asks post_pause r clock g id call = call ≡ pause_game clock g id
Asks _ r clock g id call = ⊥

-- The database is as it was; or the answer is that a call was made, and the session's player, who
-- has access to the game that the request names, asked for it.
abbrev pub IsAuthorised :
    Platform → Faults → Clock → Result String User → Endpoint → HttpRequest → Db → Answer → Type 0
IsAuthorised p f clock session e r db answer =
    (answer.1 ≡ db)
    ⊎ ((user : User) × (g : ℤ) × (id : ℤ) × (call : Request) × (session ≡ ok user)
        × (player_id user ≡ some id)
        × (game_id_from_query r ≡ some g)
        × (check (faulty p f).sqlite db g id ≡ ok true)
        × Asks e r clock g id call
        × (answer ≡ (no_content (pos 204), perform p f call db)))

abbrev pub without_store : {S : Type 0} → Handled × S × Db → Answer
without_store (a, s, db) = (a, db)

-- A middleware that runs a handler once and answers what it answers, or leaves the database.
abbrev pub IsTransparent : {S : Type 0} → Middleware S → Type 0
IsTransparent {S} idem =
    (user : User) (r : HttpRequest) (handler : Db → Answer) (s : S) (db : Db)
    → ((idem user r (on_db handler) (s, db)).2 ≡ db)
      ⊎ (without_store (idem user r (on_db handler) (s, db)) ≡ handler db)

-- A handler's part behind the access check.
unfoldable pub Allowed :
    Platform → Faults → Clock → Endpoint → HttpRequest → Db → ℤ → ℤ → Answer → Type 0
Allowed p f clock e r db g id answer =
    (answer.1 ≡ db)
    ⊎ ((call : Request) × Asks e r clock g id call
        × (answer ≡ (no_content (pos 204), perform p f call db)))

module _ (p : Platform) (f : Faults) (h : HttpAdapter) (clock : Clock) (db : Db) where
  abbrev p' : Platform
  p' = faulty p f

  pub commanded-Allowed :
      (e : Endpoint) (r : HttpRequest) (g id : ℤ) (msg : String) (call : Request) (a : Action Unit)
      → Asks e r clock g id call
      → Steady db a
      → a.1 ≡ perform p f call db
      → Allowed p f clock e r db g id (commanded p' h clock db msg a)
  unfolding Allowed
  commanded-Allowed e r g id msg call (ok _, db') asks s same =
      inr (call, asks, ap (λ (d : Db). let x : Answer = (no_content (pos 204), d) in x) same)
  commanded-Allowed e r g id msg call (err x, db') asks s same = inl (ground (arith, s.steady))

  granted-IsAuthorised :
      (e : Endpoint) (r : HttpRequest) (user : User) (g id : ℤ) (rest : Answer)
      (c : Result Error Bool)
      → player_id user ≡ some id
      → game_id_from_query r ≡ some g
      → check p'.sqlite db g id ≡ c
      → Allowed p f clock e r db g id rest
      → IsAuthorised p f clock
          (ok user)
          e
          r
          db
          (granted_or p' h clock db (denied p' h clock db) rest c)
  unfolding Allowed
  granted-IsAuthorised e r user g id rest (ok true) who which granted (inl same) = inl same
  granted-IsAuthorised e r user g id rest (ok true) who which granted (inr (call, asks, done)) =
      inr (user, g, id, call, refl, who, which, granted, asks, done)
  granted-IsAuthorised e r user g id rest (ok false) who which granted allowed = inl refl
  granted-IsAuthorised e r user g id rest (err x) who which granted allowed = inl refl

  given-IsAuthorised :
      (s : Result String User) (e : Endpoint) (r : HttpRequest) (missing : Handled) (o : Option ℤ)
      (rest : ℤ → Answer)
      → ((n : ℤ) → o ≡ some n → IsAuthorised p f clock s e r db (rest n))
      → IsAuthorised p f clock s e r db (given (denied p' h clock db missing) o rest)
  given-IsAuthorised s e r missing none rest k = inl refl
  given-IsAuthorised s e r missing (some n) rest k = k n refl

  pub access_checked-IsAuthorised :
      (e : Endpoint) (r : HttpRequest) (user : User) (rest : ℤ → ℤ → Answer)
      → ((g id : ℤ) → Allowed p f clock e r db g id (rest g id))
      → IsAuthorised p f clock
          (ok user)
          e
          r
          db
          (access_checked p' h clock db user r (denied p' h clock db) rest)
  unfolding access_checked
  access_checked-IsAuthorised e r user rest allowed =
      given-IsAuthorised (ok user) e r (bad_request_with h "Invalid gameId") (game_id_from_query r)
        (λ g.
          given (denied p' h clock db (unauthorised h "Authentication required")) (player_id user)
            (λ id.
              granted_or p' h clock db (denied p' h clock db) (rest g id)
                (check p'.sqlite db g id)))
        λ g which.
          given-IsAuthorised (ok user) e r (unauthorised h "Authentication required")
            (player_id user)
            (λ id.
              granted_or p' h clock db (denied p' h clock db) (rest g id) (check p'.sqlite db g id))
            λ id who.
              granted-IsAuthorised e r user g id (rest g id) (check p'.sqlite db g id) who which
                refl (allowed g id)

  pub save_for-Allowed :
      (r : HttpRequest) (g id : ℤ) (body : Result String ℤ)
      → r.save_body ≡ body
      → Allowed p f clock post_save r db g id (save_for p' h clock db g id body)
  unfolding Allowed perform
  save_for-Allowed r g id (err x) same = inl refl
  save_for-Allowed r g id (ok n) same = elim (Bool-cases (ltb_ℤ n (pos 1))) [
    | inl short ↦ rw short (inl refl)
    | inr long ↦ rw long (
        commanded-Allowed post_save r g id "Game is not currently playing" (save_game clock g id n)
          (save p'.sqlite p'.codec clock db g id n)
          (n, same, (ltb_ℤ-false_iff n (pos 1)).0 long, refl)
          (save-Steady p'.sqlite p.codec clock db g id n) refl)
  ]
