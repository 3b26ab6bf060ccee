-- ===== src/Adapters/Retries.antt =====
-- internal/infrastructure/driver/httpadapter: a command that is sent again and again with one
-- Idempotency-Key.
use keep_it_up.Prelude.{
  All, some, List, [], ◌∷◌, String, Result, ok, err, ◌≡◌, refl, sym, ◌∙◌, subst, ◌⊎◌, inl, inr, ℤ,
}
use keep_it_up.Db.{Db}
use keep_it_up.Usecase.{Clock}
use keep_it_up.Requests.{Request, Platform, Faults, faulty, perform}
use keep_it_up.Http.{User, no_token, HttpRequest, HttpAdapter}
use keep_it_up.Http.Handlers.{handle_login, handle_save, handle_resume, handle_pause}
use keep_it_up.Http.Serve.{
  Endpoint, post_login, get_test, get_games, get_shared, get_interactions, post_save, post_play,
  post_pause, Next, Verify, authenticated, serve,
}
use keep_it_up.Http.Access.{Asks}
use keep_it_up.Idempotency.{Idempotency, idempotency_of}
use keep_it_up.Idempotency.Contract.{View, IsIdempotencyStore}
use keep_it_up.Idempotency.Replay.{HasKey}
use keep_it_up.Idempotency.Spent.{IsSpent, idempotency_keeps, Spends, idempotency-Spends}
use keep_it_up.Adapters.{Arrival, arguments, request, Arrivals, arrive, arrive_all}
use keep_it_up.Adapters.Authorised.{serve-IsAuthorised}
use keep_it_up.Adapters.History.{Orders, Calls, arrive-Calls}

-- An element of a list.
abbrev pub Member : {A : Type 0} → A → List A → Type 0
Member x [] = ⊥
Member x (y ∷ ys) = (x ≡ y) ⊎ Member x ys

module _ {S : Type 0} (p : Platform) (h : HttpAdapter) (verify : Verify) (i : Idempotency S)
    (held : View S) (laws : IsIdempotencyStore i.store held) (key : String) where
  -- A verified session's request whose store key is the one.
  abbrev HasSessionKey : HttpRequest → Type 0
  HasSessionKey r = (user : User) × (verify r.session ≡ ok user) × HasKey i user r key

  -- A command with the key, or a request that is no command.
  abbrev pub IsRetry : Arrival → Type 0
  IsRetry (request post_save r) = HasSessionKey r
  IsRetry (request post_play r) = HasSessionKey r
  IsRetry (request post_pause r) = HasSessionKey r
  IsRetry (request e r) = Unit
  IsRetry (arguments args) = ⊥

  authenticated_keeps :
      (session : Result String User) (next : User → Next S) (s : S) (db : Db)
      → IsSpent h i held laws key s
      → ((user : User) → IsSpent h i held laws key (next user (s, db)).1)
      → IsSpent h i held laws key (authenticated session next (s, db)).1
  authenticated_keeps (ok user) next s db there k = k user
  authenticated_keeps (err e) next s db there k = there

  serve_keeps :
      (f : Faults) (clock : Clock) (e : Endpoint) (r : HttpRequest) (s : S) (db : Db)
      → IsSpent h i held laws key s
      → IsSpent h i held laws key
          (serve (faulty p f) h verify (idempotency_of h (some i)) clock e r (s, db)).1
  unfolding serve
  serve_keeps f clock post_login r s db there =
      idempotency_keeps h i held laws key no_token r
        (λ d. (handle_login (faulty p f) h clock d r, d)) s db there
  serve_keeps f clock get_test r s db there =
      authenticated_keeps (verify r.session) _ s db there (λ user. there)
  serve_keeps f clock get_games r s db there =
      authenticated_keeps (verify r.session) _ s db there (λ user. there)
  serve_keeps f clock get_shared r s db there =
      authenticated_keeps (verify r.session) _ s db there (λ user. there)
  serve_keeps f clock get_interactions r s db there =
      authenticated_keeps (verify r.session) _ s db there (λ user. there)
  serve_keeps f clock post_save r s db there =
      authenticated_keeps (verify r.session) _ s db there (λ user.
        idempotency_keeps h i held laws key user r (λ d. handle_save (faulty p f) h clock d user r)
          s db there)
  serve_keeps f clock post_play r s db there =
      authenticated_keeps (verify r.session) _ s db there (λ user.
        idempotency_keeps h i held laws key user r
          (λ d. handle_resume (faulty p f) h clock d user r) s db there)
  serve_keeps f clock post_pause r s db there =
      authenticated_keeps (verify r.session) _ s db there (λ user.
        idempotency_keeps h i held laws key user r (λ d. handle_pause (faulty p f) h clock d user r)
          s db there)

  authenticated-Spends :
      (session : Result String User) (user : User) (next : User → Next S) (s : S) (db : Db)
      → session ≡ ok user
      → Spends h i held laws key s db (next user (s, db))
      → Spends h i held laws key s db (authenticated session next (s, db))
  authenticated-Spends session user next s db same k = rw same k

  -- What is no command leaves the database.
  only_reads :
      (f : Faults) (clock : Clock) (e : Endpoint) (r : HttpRequest) (s : S) (db : Db)
      → ((g id : ℤ) (call : Request) → Asks e r clock g id call → ⊥)
      → (serve (faulty p f) h verify (idempotency_of h (some i)) clock e r (s, db)).2 ≡ db
  only_reads f clock e r s db no_call =
      elim (serve-IsAuthorised p f h verify (some i) clock e r s db) [
        | inl same ↦ same
        | inr (user, g, id, call, _, _, _, _, asks, _) ↦ absurd (no_call g id call asks)
      ]

  serve-Spends :
      (f : Faults) (clock : Clock) (e : Endpoint) (r : HttpRequest) (s : S) (db : Db)
      → IsRetry (request e r)
      → Spends h i held laws key s db
          (serve (faulty p f) h verify (idempotency_of h (some i)) clock e r (s, db))
  unfolding serve
  serve-Spends f clock post_save r s db (user, same, mine) =
      authenticated-Spends (verify r.session) user _ s db same (
        idempotency-Spends h i held laws key user r (λ d. handle_save (faulty p f) h clock d user r)
          s db mine)
  serve-Spends f clock post_play r s db (user, same, mine) =
      authenticated-Spends (verify r.session) user _ s db same (
        idempotency-Spends h i held laws key user r
          (λ d. handle_resume (faulty p f) h clock d user r) s db mine)
  serve-Spends f clock post_pause r s db (user, same, mine) =
      authenticated-Spends (verify r.session) user _ s db same (
        idempotency-Spends h i held laws key user r
          (λ d. handle_pause (faulty p f) h clock d user r) s db mine)
  serve-Spends f clock post_login r s db k =
      let same = only_reads f clock post_login r s db (λ g id call asks. asks) in
      (λ there. same, inl same)
  serve-Spends f clock get_test r s db k =
      let same = only_reads f clock get_test r s db (λ g id call asks. asks) in
      (λ there. same, inl same)
  serve-Spends f clock get_games r s db k =
      let same = only_reads f clock get_games r s db (λ g id call asks. asks) in
      (λ there. same, inl same)
  serve-Spends f clock get_shared r s db k =
      let same = only_reads f clock get_shared r s db (λ g id call asks. asks) in
      (λ there. same, inl same)
  serve-Spends f clock get_interactions r s db k =
      let same = only_reads f clock get_interactions r s db (λ g id call asks. asks) in
      (λ there. same, inl same)

  abbrev AreRetries : Arrivals → Type 0
  AreRetries arrivals = All (λ x. IsRetry x.2) arrivals

  -- Once the key is spent, no retry changes the database.
  arrive-IsSpent :
      (f : Faults) (clock : Clock) (a : Arrival) (s : S) (db : Db)
      → IsRetry a
      → IsSpent h i held laws key s
      → IsSpent h i held laws key (arrive p h verify (some i) f clock a (s, db)).0
        × ((arrive p h verify (some i) f clock a (s, db)).1 ≡ db)
  arrive-IsSpent f clock (request e r) s db retry there =
      (serve_keeps f clock e r s db there, (serve-Spends f clock e r s db retry).0 there)
  arrive-IsSpent f clock (arguments args) s db retry there = absurd retry

  arrive_all-after_spent :
      (arrivals : Arrivals) (s : S) (db : Db)
      → AreRetries arrivals
      → IsSpent h i held laws key s
      → (arrive_all p h verify (some i) arrivals (s, db)).1 ≡ db
  unfolding arrive_all
  arrive_all-after_spent [] s db retries there = refl
  arrive_all-after_spent ((f, clock, a) ∷ rest) s db (retry, retries) there =
      let next = arrive p h verify (some i) f clock a (s, db) in
      let (still, same) = arrive-IsSpent f clock a s db retry there in
      arrive_all-after_spent rest next.0 next.1 retries still ∙ same

  arrive_first :
      (f : Faults) (clock : Clock) (a : Arrival) (s : S) (db : Db)
      → IsRetry a
      → ((arrive p h verify (some i) f clock a (s, db)).1 ≡ db)
        ⊎ IsSpent h i held laws key (arrive p h verify (some i) f clock a (s, db)).0
  arrive_first f clock (request e r) s db retry = (serve-Spends f clock e r s db retry).1
  arrive_first f clock (arguments args) s db retry = absurd retry

  -- The database is as it was, or the one that a single call leaves: one that an arrival ordered,
  -- from the database as it was.
  abbrev pub IsOnce : Arrivals → Db → Db → Type 0
  IsOnce arrivals db db' =
      (db' ≡ db)
      ⊎ ((f : Faults) × (clock : Clock) × (a : Arrival) × (r : Request) × Member (f, clock, a)
            arrivals
          × Orders p verify f clock a db r
          × (db' ≡ perform p f r db))

  later-IsOnce :
      (x : Faults × Clock × Arrival) (rest : Arrivals) (db db' : Db)
      → IsOnce rest db db'
      → IsOnce (x ∷ rest) db db'
  later-IsOnce x rest db db' (inl same) = inl same
  later-IsOnce x rest db db' (inr (f, clock, a, r, there, orders, done)) =
      inr (f, clock, a, r, inr there, orders, done)

  first-IsOnce :
      (f : Faults) (clock : Clock) (a : Arrival) (rest : Arrivals) (db db' : Db)
      → Calls p h verify (some i) f clock a db db'
      → IsOnce ((f, clock, a) ∷ rest) db db'
  first-IsOnce f clock a rest db db' (inl same) = inl same
  first-IsOnce f clock a rest db db' (inr (r, orders, done)) =
      inr (f, clock, a, r, inl refl, orders, done)

  -- With a store that keeps its contract, and while no key expires: when commands of a player
  -- arrive at the server with one Idempotency-Key, one after another, in any number, with requests
  -- that are no commands between them, and whatever fails, the database that they leave is as it
  -- was, or the one that a single call leaves, which one of the arrivals ordered.
  pub retries-IsOnce :
      (arrivals : Arrivals) (s : S) (db : Db)
      → AreRetries arrivals
      → IsOnce arrivals db (arrive_all p h verify (some i) arrivals (s, db)).1
  unfolding arrive_all
  retries-IsOnce [] s db retries = inl refl
  retries-IsOnce ((f, clock, a) ∷ rest) s db (retry, retries) =
      let next = arrive p h verify (some i) f clock a (s, db) in
      elim (arrive_first f clock a s db retry) [
        | inl same ↦
            subst
              (λ (x : Db).
                IsOnce ((f, clock, a) ∷ rest) x (arrive_all p h verify (some i) rest next).1)
              same
              (later-IsOnce (f, clock, a) rest next.1 (arrive_all p h verify (some i) rest next).1
                (retries-IsOnce rest next.0 next.1 retries))
        | inr there ↦
            subst (IsOnce ((f, clock, a) ∷ rest) db)
              (sym (arrive_all-after_spent rest next.0 next.1 retries there))
              (first-IsOnce f clock a rest db next.1
                (arrive-Calls p h verify (some i) f clock a s db))
      ]
