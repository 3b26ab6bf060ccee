-- ===== src/Idempotency/Steps.antt =====
-- internal/infrastructure/driver/httpadapter/idempotency.go: the middleware one call at a time.
--
-- Requests are served at once, each in a goroutine: between two calls of the store, or the store
-- and the handler, the others may do theirs. A flight is one such request, and `ran` the store
-- keys of the handlers that have run.

use keep_it_up.Prelude.{
  ℕ, zero, suc, Bool, true, false, not, List, [], ◌∷◌, String, if◌then◌else◌, Result, ok, err,
}
use keep_it_up.Text.{is_empty}
use keep_it_up.Db.{Db}
use keep_it_up.Http.{User, HttpRequest, HttpAdapter, Response, Handled, bad_request_with, internal}
use keep_it_up.Http.Handlers.{Answer}
use keep_it_up.Idempotency.{
  StoreError, Idempotency, valid_idempotency_key, idempotency_store_key, found_before, complete_key,
}

-- Where the middleware stands: before `Acquire`, or, without a key, before the handler; behind an
-- `Acquire` that has won the key, or lost it; behind the handler; at its return.
pub data Phase : Type 0 where
  arrived won lost : Phase
  served : Response → Phase
  answered : Handled → Phase

pub record Flight : Type 0 where
  pub user : User
  pub request : HttpRequest
  pub handler : Db → Answer
  pub phase : Phase

pub record World (S : Type 0) : Type 0 where
  pub store : S
  pub db : Db
  pub ran : List String

module _ {S : Type 0} (h : HttpAdapter) (i : Idempotency S) where
  abbrev pub key_of : Flight → String
  key_of f = idempotency_store_key f.user (f.request.header i.header)

  -- The handler's call of a request without a key.
  abbrev pub unkeyed : World S → Answer → Phase × World S
  unkeyed w (a, db) = (answered a, record w { db = db })

  abbrev pub handled : Handled → Phase
  handled (ok r) = served r
  handled (err e) = answered (err e)

  -- The handler's call of a request that has won its key.
  abbrev pub keyed : String → World S → Answer → Phase × World S
  keyed key w (a, db) = (handled a, record w { db = db; ran = key ∷ w.ran })

  abbrev pub acquiring : World S → Result StoreError Bool × S → Phase × World S
  acquiring w (err e, s) = (answered (internal h), record w { store = s })
  acquiring w (ok false, s) = (lost, record w { store = s })
  acquiring w (ok true, s) = (won, record w { store = s })

  -- The next call of a flight that stands at a phase.
  unfoldable pub advance : Flight → Phase → World S → Phase × World S
  advance f arrived w =
      if is_empty (f.request.header i.header)
      then unkeyed w (f.handler w.db)
      else if not (valid_idempotency_key (f.request.header i.header))
      then (answered (bad_request_with h "Invalid Idempotency-Key"), w)
      else acquiring w (i.store.acquire w.store (key_of f) i.ttl)
  advance f won w = keyed (key_of f) w (f.handler w.db)
  advance f lost w = (answered (found_before h (i.store.state w.store (key_of f))), w)
  advance f (served r) w =
      (answered (ok r), record w { store = complete_key h i (key_of f) w.store r })
  advance f (answered a) w = (answered a, w)

  -- The flight of a number makes its next call.
  unfoldable pub step_flight : ℕ → List Flight → World S → List Flight × World S
  unfolding advance
  step_flight n [] w = ([], w)
  step_flight zero (f ∷ fs) w =
      let (phase, w') = advance f f.phase w in (record f { phase = phase } ∷ fs, w')
  step_flight (suc n) (f ∷ fs) w = let (fs', w') = step_flight n fs w in (f ∷ fs', w')

  -- The flights make their calls in the order of a schedule.
  unfoldable pub fly : List ℕ → List Flight → World S → List Flight × World S
  unfolding step_flight
  fly [] fs w = (fs, w)
  fly (n ∷ ns) fs w = let (fs', w') = step_flight n fs w in fly ns fs' w'
