-- ===== src/Cmd/Defer.antt =====
-- The functions `run` of cmd/server and cmd/manager as Go runs them: a call that fails returns at
-- once, and what was deferred runs at the return, the latest first.
use keep_it_up.Prelude.{List, [], ◌∷◌, ◌++◌, String, Result, ok, err, map_err}
use keep_it_up.Config.{ConfigError}
use keep_it_up.Usecase.Constructors.{NotInitialized}

-- What is held until the return: the notification of signals, the database, the Valkey client.
pub data Resource : Type 0 where
  signals database valkey_client : Resource

pub data Effect : Type 0 where
  opened used closed : Resource → Effect

-- What a start fails with, besides the texts in front of the error.
pub data Failure : Type 0 where
  load_failed : ConfigError → Failure
  open_failed connect_failed valkey_failed : String → Failure
  create_failed : NotInitialized → Failure

-- What has been done, and the calls that are deferred.
pub record Frame : Type 0 where
  pub done : List Effect
  pub deferred : List Effect

abbrev pub Program : Type 0 → Type 0
Program A = Frame → Result Failure A × Frame

module _ {A B : Type 0} where
  abbrev pub and_then : Result Failure A × Frame → (A → Program B) → Result Failure B × Frame
  and_then (ok a, f) rest = rest a f
  and_then (err e, f) rest = (err e, f)

  infixl 5 ◌>>=◌ ◌>>◌
  unfoldable pub ◌>>=◌ : Program A → (A → Program B) → Program B
  ◌>>=◌ m rest f = and_then (m f) rest

  abbrev pub ◌>>◌ : Program A → Program B → Program B
  m >> rest = m >>= λ _. rest

-- A call whose error is returned.
abbrev pub called : {E A : Type 0} → (E → Failure) → Result E A → Program A
called failure r f = (map_err failure r, f)

abbrev pub return : {A : Type 0} → A → Program A
return a f = (ok a, f)

-- A call that opens a resource, whose closing is deferred if it succeeds.
abbrev pub hold : Resource → (String → Failure) → Result String Unit → Program Unit
hold r failure (err e) f = (err (failure e), f)
hold r failure (ok tt) f =
    (ok tt, record { done = f.done ++ opened r ∷ []; deferred = closed r ∷ f.deferred })

abbrev pub use_of : Resource → Program Unit
use_of r f = (ok tt, record f { done = f.done ++ used r ∷ [] })

abbrev pub entered : Frame
entered = record { done = []; deferred = [] }

-- What has been done when the function has returned.
abbrev pub effects_of : Frame → List Effect
effects_of f = f.done ++ f.deferred

abbrev pub enter : {A : Type 0} → Program A → Result Failure A × Frame
enter m = m entered
