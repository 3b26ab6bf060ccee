-- ===== src/Cmd/Serving.antt =====
-- `Run` of internal/infrastructure/driver/httpadapter/http.go, and the end of `run` of
-- cmd/server/main.go: the goroutine of the server, and the main one that waits for it.
--
-- An event is a signal, the error that `ListenAndServe` returns with, or the next step of one of
-- the two goroutines, which does nothing while it is blocked. A step of the server names the case
-- of its `select`: where both are ready, Go takes either. `Shutdown` returns what the parameter
-- says, and makes `ListenAndServe` return `ErrServerClosed`, if it has not returned before.
pub mod Turns
pub mod Fails
pub mod Sound
pub mod Exit
pub mod Stops
use keep_it_up.Prelude.{
  ℕ, Bool, true, false, Option, none, some, List, [], ◌∷◌, String, if◌then◌else◌, Result, ok, err,
}

-- `http.ErrServerClosed`, or another error.
pub data Stopped : Type 0 where
  server_closed : Stopped
  failed : String → Stopped

-- The goroutine of the server: at the `select` of `Run`, behind a `Shutdown` without an error, at
-- the return of `Run`, behind `errCh <- wrappedErr`, at its end.
pub data ServerAt : Type 0 where
  selecting stopping : ServerAt
  returned : Stopped → ServerAt
  notified finished : ServerAt

-- The main goroutine: at `<-ctx.Done()`, at `wg.Wait()`, at its return with an exit code.
pub data MainAt : Type 0 where
  waiting joining : MainAt
  exited : ℕ → MainAt

pub data Case : Type 0 where
  done_case listened_case : Case

pub data Event : Type 0 where
  interrupt : Event
  listener_fails : String → Event
  server_steps : Case → Event
  main_steps : Event

-- The context, the two channels `errCh`, and the two goroutines.
pub record State : Type 0 where
  pub cancelled : Bool
  pub listened : Option Stopped
  pub failure : Option String
  pub server : ServerAt
  pub main_at : MainAt

abbrev pub starting : State
starting = record {
  cancelled = false;
  listened = none;
  failure = none;
  server = selecting;
  main_at = waiting;
}

-- `ListenAndServe` returns once.
abbrev pub first : Option Stopped → Stopped → Option Stopped
first none e = some e
first (some e') e = some e'

-- `srv.Shutdown`
abbrev pub shut : Result String Unit → State → State
shut (ok tt) s = record s { listened = first s.listened server_closed; server = stopping }
shut (err e) s = record s {
  listened = first s.listened server_closed;
  server = returned (failed e);
}

-- `<-errCh` of `Run`
abbrev pub await : Option Stopped → State → State
await none s = s
await (some e) s = record s { server = returned e }

module _ (shutdown : Result String Unit) where
  -- The next step of the server's goroutine, from a place.
  abbrev pub serve_on : Case → ServerAt → State → State
  serve_on done_case selecting s = if s.cancelled then shut shutdown s else s
  serve_on listened_case selecting s = await s.listened s
  serve_on c stopping s = await s.listened s
  serve_on c (returned server_closed) s = record s { server = finished }
  serve_on c (returned (failed e)) s = record s { failure = some e; server = notified }
  serve_on c notified s = record s { cancelled = true; server = finished }
  serve_on c finished s = s

  abbrev pub code : Option String → ℕ
  code none = 0
  code (some e) = 1

  -- `wg.Wait()`, and the return.
  abbrev pub joined : ServerAt → State → State
  joined finished s = record s { main_at = exited (code s.failure) }
  joined _ s = s

  -- The next step of the main goroutine, from a place.
  abbrev pub main_on : MainAt → State → State
  main_on waiting s = if s.cancelled then record s { main_at = joining } else s
  main_on joining s = joined s.server s
  main_on (exited c) s = s

  abbrev pub step : Event → State → State
  step interrupt s = record s { cancelled = true }
  step (listener_fails e) s = record s { listened = first s.listened (failed e) }
  step (server_steps c) s = serve_on c s.server s
  step main_steps s = main_on s.main_at s

  unfoldable pub serving : List Event → State → State
  serving [] s = s
  serving (e ∷ events) s = serving events (step e s)
