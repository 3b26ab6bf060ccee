-- ===== src/Adapters/History.antt =====
-- The two adapters against the ports that they drive (internal/core/port/driver.go).
use keep_it_up.Prelude.{
  Option, ℤ, pos, true, none, some, List, [], ◌∷◌, ok, ◌≡◌, refl, sym, subst, ◌∙◌, ap, ◌⊎◌, inl,
  inr, ◌≤ℤ◌,
}
use keep_it_up.Time.{Time}
use keep_it_up.Model.{SharedData}
use keep_it_up.Stamp.{IsCodec}
use keep_it_up.Db.{IsSqlite, Db, empty_db, list_interactions_for_replay}
use keep_it_up.Usecase.{Clock}
use keep_it_up.Usecase.AccessManagement.{check}
use keep_it_up.Usecase.DataFetching.{get_shared_data}
use keep_it_up.Requests.{
  Request, save_game, resume_game, pause_game, add_game_named, update_game, delete_game,
  grant_access, revoke_access, add_player_named, rename_player, change_password, force_password,
  delete_player, Platform, Faults, faulty, perform, perform_all,
}
use keep_it_up.History.Commands.{IsClock}
use keep_it_up.History.Answers.{HasClock, HaveClocks, replay_always_succeeds}
use keep_it_up.Cli.Refines.{Reads, Says}
use keep_it_up.Cli.Refines.Run.{run-Refines}
use keep_it_up.Http.{User, HttpRequest, HttpAdapter, player_id}
use keep_it_up.Http.Query.{game_id_from_query}
use keep_it_up.Http.Serve.{
  Endpoint, post_login, get_test, get_games, get_shared, get_interactions, post_save, post_play,
  post_pause, Verify,
}
use keep_it_up.Http.Access.{Asks}
use keep_it_up.Adapters.Authorised.{serve-IsAuthorised}
use keep_it_up.Idempotency.{Idempotency}
use keep_it_up.Adapters.{Arrival, arguments, request, Arrivals, arrive, arrive_all}

-- The readings of the clock can be stored.
abbrev pub AreClocks : Arrivals → Type 0
AreClocks [] = Unit
AreClocks ((f, clock, a) ∷ rest) = IsClock clock × AreClocks rest

Reads-HasClock : (clock : Clock) (r : Request) → IsClock clock → Reads clock r → HasClock r
Reads-HasClock clock (save_game c g pl n) k e = subst IsClock (sym e) k
Reads-HasClock clock (resume_game c g pl) k e = subst IsClock (sym e) k
Reads-HasClock clock (pause_game c g pl) k e = subst IsClock (sym e) k
Reads-HasClock clock (add_game_named name) k e = tt
Reads-HasClock clock (update_game g name) k e = tt
Reads-HasClock clock (delete_game g) k e = tt
Reads-HasClock clock (grant_access g pl) k e = tt
Reads-HasClock clock (revoke_access g pl) k e = tt
Reads-HasClock clock (add_player_named name username password) k e = tt
Reads-HasClock clock (rename_player pl name) k e = tt
Reads-HasClock clock (change_password username current new) k e = tt
Reads-HasClock clock (force_password username new) k e = tt
Reads-HasClock clock (delete_player pl) k e = tt

Asks-HasClock :
    (e : Endpoint) (r : HttpRequest) (clock : Clock) (g id : ℤ) (call : Request)
    → IsClock clock
    → Asks e r clock g id call
    → HasClock call
Asks-HasClock post_save r clock g id call k (n, _, _, e) = subst HasClock (sym e) k
Asks-HasClock post_play r clock g id call k e = subst HasClock (sym e) k
Asks-HasClock post_pause r clock g id call k e = subst HasClock (sym e) k
Asks-HasClock post_login r clock g id call k e = absurd e
Asks-HasClock get_test r clock g id call k e = absurd e
Asks-HasClock get_games r clock g id call k e = absurd e
Asks-HasClock get_shared r clock g id call k e = absurd e
Asks-HasClock get_interactions r clock g id call k e = absurd e

module _ (p : Platform) (verify : Verify) where
  -- The call that an arrival orders: the one that the arguments say, or the one that the request
  -- asks for, by the player of a verified session, who has access to the game that it names.
  unfoldable pub Orders : Faults → Clock → Arrival → Db → Request → Type 0
  Orders f clock (arguments args) db call = Reads clock call × Says args call
  Orders f clock (request e r) db call =
      (user : User) × (g : ℤ) × (id : ℤ) × (verify r.session ≡ ok user)
      × (player_id user ≡ some id)
      × (game_id_from_query r ≡ some g)
      × (check (faulty p f).sqlite db g id ≡ ok true)
      × Asks e r clock g id call

  -- A history of the calls that some of the arrivals order, in the order of the arrivals, each with
  -- the failures of its arrival and on the database that the calls before it have left.
  unfoldable pub Follows : Db → Arrivals → List (Faults × Request) → Type 0
  Follows db [] history = history ≡ []
  Follows db ((f, clock, a) ∷ rest) history =
      Follows db rest history
      ⊎ ((r : Request) × (later : List (Faults × Request)) × (history ≡ (f, r) ∷ later)
          × Orders f clock a db r
          × Follows (perform p f r db) rest later)

  Orders-HasClock :
      (f : Faults) (clock : Clock) (a : Arrival) (db : Db) (r : Request)
      → IsClock clock
      → Orders f clock a db r
      → HasClock r
  unfolding Orders
  Orders-HasClock f clock (arguments args) db r k (reads, says) = Reads-HasClock clock r k reads
  Orders-HasClock f clock (request e q) db r k (user, g, id, _, _, _, _, asks) =
      Asks-HasClock e q clock g id r k asks

  pub Follows-HaveClocks :
      (db : Db) (arrivals : Arrivals) (history : List (Faults × Request))
      → AreClocks arrivals
      → Follows db arrivals history
      → HaveClocks history
  unfolding Follows
  Follows-HaveClocks db [] history k same = subst HaveClocks (sym same) tt
  Follows-HaveClocks db ((f, clock, a) ∷ rest) history (k, ks) (inl idle) =
      Follows-HaveClocks db rest history ks idle
  Follows-HaveClocks db ((f, clock, a) ∷ rest) history (k, ks)
        (inr (r, later, same, orders, follows)) =
      subst HaveClocks (sym same) (
        Orders-HasClock f clock a db r k orders,
        Follows-HaveClocks (perform p f r db) rest later ks follows,
      )

module _ {S : Type 0} (p : Platform) (h : HttpAdapter) (verify : Verify)
    (o : Option (Idempotency S)) where
  -- One arrival makes the call that it orders, or none.
  abbrev pub Calls : Faults → Clock → Arrival → Db → Db → Type 0
  Calls f clock a db db' =
      (db' ≡ db) ⊎ ((r : Request) × Orders p verify f clock a db r × (db' ≡ perform p f r db))

  pub arrive-Calls :
      (f : Faults) (clock : Clock) (a : Arrival) (s : S) (db : Db)
      → Calls f clock a db (arrive p h verify o f clock a (s, db)).1
  unfolding Orders
  arrive-Calls f clock (arguments args) s db = elim (run-Refines p f clock db args) [
    | inl same ↦ inl same
    | inr (r, o, reads, says, ran) ↦ inr (r, (reads, says), ap (λ x. x.1) ran)
  ]
  arrive-Calls f clock (request e r) s db =
      elim (serve-IsAuthorised p f h verify o clock e r s db) [
        | inl same ↦ inl same
        | inr (user, g, id, call, session, who, which, allowed, asks, answer) ↦
            inr (call, (user, g, id, session, who, which, allowed, asks), ap (λ x. x.1) answer)
      ]

  -- Whatever arrives at the two adapters, the database that they leave is the one that a history of
  -- calls of the ports leaves. Each call of the history is ordered by an arrival of its own, in the
  -- order of the arrivals: it is the call that the arguments say, with the clock of the arrival, or
  -- the one that the request asks for, by the player of a verified session who has access, when it
  -- arrives, to the game that the request names. The server has an idempotency store or none.
  pub arrive_all-Refines :
      (arrivals : Arrivals) (s : S) (db : Db)
      → (history : List (Faults × Request)) × Follows p verify db arrivals history
        × ((arrive_all p h verify o arrivals (s, db)).1 ≡ perform_all p history db)
  unfolding arrive_all perform_all Follows
  arrive_all-Refines [] s db = ([], refl, refl)
  arrive_all-Refines ((f, clock, a) ∷ rest) s db =
      let next = arrive p h verify o f clock a (s, db) in
      let (history, follows, same) = arrive_all-Refines rest next.0 next.1 in
      elim (arrive-Calls f clock a s db) [
        | inl kept ↦ (
          history,
          inl (subst (λ (d : Db). Follows p verify d rest history) kept follows),
          same ∙ ap (perform_all p history) kept,
        )
        | inr (r, orders, done) ↦ (
          (f, r) ∷ history,
          inr (
            r,
            history,
            refl,
            orders,
            subst (λ (d : Db). Follows p verify d rest history) done follows,
          ),
          same ∙ ap (perform_all p history) done,
        )
      ]

  -- On an empty database, whatever has arrived at the two adapters, with clock readings in any
  -- order but storable, and the queries that failed: `GetSharedData` of a valid game id succeeds at
  -- every time at which its query does.
  pub arrive_all_replays :
      (arrivals : Arrivals) (s : S) (game_id : ℤ) (now : Time)
      → IsSqlite p.sqlite
      → IsCodec p.sqlite p.codec
      → AreClocks arrivals
      → pos 1 ≤ℤ game_id
      → p.sqlite.fault list_interactions_for_replay ≡ none
      → (d : SharedData) × (get_shared_data p.sqlite p.codec
            (arrive_all p h verify o arrivals (s, empty_db)).1
            (ok now)
            game_id
          ≡ ok d)
  arrive_all_replays arrivals s game_id now laws codec k positive up =
      let (history, follows, same) = arrive_all-Refines arrivals s empty_db in
      let clocks = Follows-HaveClocks p verify empty_db arrivals history k follows in
      let (d, found) = replay_always_succeeds p laws codec history game_id now clocks positive up in
      (d, ap (λ (db : Db). get_shared_data p.sqlite p.codec db (ok now) game_id) same ∙ found)
