-- ===== src/Adapters.antt =====
-- The program in front of its database: what arrives at the two adapters, the HTTP server
-- (internal/infrastructure/driver/httpadapter) and runs of the command line
-- (internal/infrastructure/driver/cliadapter), one after another.
pub mod Authorised
pub mod History
pub mod Retries
use keep_it_up.Prelude.{Option, List, [], ◌∷◌, String}
use keep_it_up.Db.{Db}
use keep_it_up.Usecase.{Clock}
use keep_it_up.Requests.{Platform, Faults, faulty}
use keep_it_up.Cli.Run.{run}
use keep_it_up.Http.{HttpRequest, HttpAdapter, Handled}
use keep_it_up.Http.Serve.{Endpoint, Verify, serve}
use keep_it_up.Idempotency.{Idempotency, idempotency_of}

pub data Arrival : Type 0 where
  arguments : List String → Arrival
  request : Endpoint → HttpRequest → Arrival

-- With the clock's reading, and the queries that fail.
abbrev pub Arrivals : Type 0
Arrivals = List (Faults × Clock × Arrival)

module _ {S : Type 0} (p : Platform) (h : HttpAdapter) (verify : Verify)
    (o : Option (Idempotency S)) where
  abbrev left_by : Handled × S × Db → S × Db
  left_by (a, s, db) = (s, db)

  abbrev pub arrive : Faults → Clock → Arrival → S × Db → S × Db
  arrive f clock (arguments args) (s, db) = (s, (run (faulty p f) clock db args).1)
  arrive f clock (request e r) (s, db) =
      left_by (serve (faulty p f) h verify (idempotency_of h o) clock e r (s, db))

  unfoldable pub arrive_all : Arrivals → S × Db → S × Db
  arrive_all [] w = w
  arrive_all ((f, clock, a) ∷ rest) w = arrive_all rest (arrive f clock a w)
