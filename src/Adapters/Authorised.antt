-- ===== src/Adapters/Authorised.antt =====
-- internal/infrastructure/driver/httpadapter: which requests change the database.
use keep_it_up.Prelude.{Option}
use keep_it_up.Db.{Db}
use keep_it_up.Usecase.{Clock}
use keep_it_up.Requests.{Platform, Faults, faulty}
use keep_it_up.Http.{HttpRequest, HttpAdapter}
use keep_it_up.Http.Serve.{Endpoint, Verify, serve}
use keep_it_up.Http.Access.{IsAuthorised, without_store}
use keep_it_up.Http.Authorised.{serve-IsAuthorised_of}
use keep_it_up.Idempotency.{Idempotency, idempotency_of}
use keep_it_up.Idempotency.Transparent.{idempotency_of-IsTransparent}

-- Whatever the endpoint and the request, with an idempotency store or without, and whatever the
-- store does: the database is as it was, or the endpoint is one of the three commands, and the call
-- was made that the request asks for, by the player of a verified session, who has access to the
-- game that the request names; the answer is then 204.
pub serve-IsAuthorised :
    {S : Type 0} (p : Platform) (f : Faults) (h : HttpAdapter) (verify : Verify)
    (o : Option (Idempotency S)) (clock : Clock) (e : Endpoint) (r : HttpRequest) (s : S) (db : Db)
    → IsAuthorised p f clock
        (verify r.session)
        e
        r
        db
        (without_store (serve (faulty p f) h verify (idempotency_of h o) clock e r (s, db)))
serve-IsAuthorised p f h verify o clock e r s db =
    serve-IsAuthorised_of p f h clock db verify (idempotency_of h o) e r s
      (idempotency_of-IsTransparent h o)
