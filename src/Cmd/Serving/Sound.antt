-- ===== src/Cmd/Serving/Sound.antt =====
-- cmd/server/main.go: why the goroutine of the server stands where it does.
use keep_it_up.Prelude.{
  Bool, true, false, Option, none, some, String, if◌then◌else◌, Result, ok, err, ◌≡◌, ◌≢◌, refl,
  sym, ◌∙◌, subst, ◌⊎◌, inl, inr, ℕ, arith,
}
use keep_it_up.Cmd.Serving.{
  Stopped, server_closed, failed, ServerAt, selecting, stopping, returned, notified, finished,
  MainAt, waiting, joining, exited, Case, done_case, listened_case, Event, interrupt,
  listener_fails, State, first, shut, await, serve_on,
}

module _ (shutdown : Result String Unit) (Interrupted : Type 0) (Fails : String → Type 0) where
  -- A signal has come, and the server was shut down without an error.
  abbrev pub IsGraceful : Type 0
  IsGraceful = Interrupted × (shutdown ≡ ok tt)

  -- The listener has failed with the error, or the shutdown has.
  abbrev pub IsCause : String → Type 0
  IsCause e = Fails e ⊎ (shutdown ≡ err e)

  abbrev IsListened : Option Stopped → Type 0
  IsListened none = Unit
  IsListened (some server_closed) = Interrupted
  IsListened (some (failed e)) = Fails e

  -- What holds where the server's goroutine stands, of the two channels.
  abbrev pub IsServing : ServerAt → Option Stopped → Option String → Type 0
  IsServing selecting listened failure = (listened ≢ some server_closed) × (failure ≡ none)
  IsServing stopping listened failure = (shutdown ≡ ok tt) × (failure ≡ none)
  IsServing (returned server_closed) listened failure = IsGraceful × (failure ≡ none)
  IsServing (returned (failed e)) listened failure = IsCause e × (failure ≡ none)
  IsServing notified listened failure = (e : String) × IsCause e × (failure ≡ some e)
  IsServing finished listened failure =
      (IsGraceful × (failure ≡ none)) ⊎ ((e : String) × IsCause e × (failure ≡ some e))

  abbrev pub IsEnd : ℕ → Type 0
  IsEnd c = ((c ≡ 0) × IsGraceful) ⊎ ((c ≡ 1) × ((e : String) × IsCause e))

  abbrev pub IsMain : MainAt → ServerAt → Type 0
  IsMain waiting server = Unit
  IsMain joining server = Unit
  IsMain (exited c) server = (server ≡ finished) × IsEnd c

  abbrev IsCancelled : Bool → Option String → Type 0
  IsCancelled cancelled failure =
      cancelled ≡ true → Interrupted ⊎ ((e : String) × (failure ≡ some e))

  abbrev pub IsSound : State → Type 0
  IsSound s =
      IsCancelled s.cancelled s.failure
      × IsListened s.listened
      × IsServing s.server s.listened s.failure
      × IsMain s.main_at s.server

  abbrev pub Happens : Event → Type 0
  Happens interrupt = Interrupted
  Happens (listener_fails e) = Fails e
  Happens _ = Unit

  goes_on : (m : MainAt) (a b : ServerAt) → a ≢ finished → IsMain m a → IsMain m b
  goes_on waiting a b ne w = tt
  goes_on joining a b ne w = tt
  goes_on (exited c) a b ne (end, _) = absurd (ne end)

  -- An error that ends the `select`, or the wait behind the shutdown.
  pub first-IsListened :
      (o : Option Stopped) (e : Stopped)
      → IsListened (some e)
      → IsListened o
      → IsListened (first o e)
  first-IsListened none e new old = new
  first-IsListened (some e') e new old = old

  interrupted_by :
      (cancelled : Bool) (failure : Option String)
      → IsCancelled cancelled failure
      → cancelled ≡ true
      → failure ≡ none
      → Interrupted
  interrupted_by cancelled failure cause is empty = elim (cause is) [
    | inl came ↦ came
    | inr (e, full) ↦ absurd (ground (arith, full, empty))
  ]

  shut-IsSound :
      (r : Result String Unit) (s : State)
      → shutdown ≡ r
      → s.server ≢ finished
      → s.failure ≡ none
      → Interrupted
      → IsSound s
      → IsSound (shut r s)
  shut-IsSound (ok tt) s same ne empty came (cause, heard, serves, waits) = (
    cause,
    first-IsListened s.listened server_closed came heard,
    (same, empty),
    goes_on s.main_at s.server stopping ne waits,
  )
  shut-IsSound (err e) s same ne empty came (cause, heard, serves, waits) = (
    cause,
    first-IsListened s.listened server_closed came heard,
    (inr same, empty),
    goes_on s.main_at s.server (returned (failed e)) ne waits,
  )

  await-IsSound :
      (o : Option Stopped) (s : State)
      → s.listened ≡ o
      → s.server ≢ finished
      → s.failure ≡ none
      → ((o ≡ some server_closed) → IsGraceful)
      → IsSound s
      → IsSound (await o s)
  await-IsSound none s same ne empty closed sound = sound
  await-IsSound (some server_closed) s same ne empty closed (cause, heard, serves, waits) = (
    cause,
    heard,
    (closed refl, empty),
    goes_on s.main_at s.server (returned server_closed) ne waits,
  )
  await-IsSound (some (failed e)) s same ne empty closed (cause, heard, serves, waits) = (
    cause,
    heard,
    (inl (subst IsListened same heard), empty),
    goes_on s.main_at s.server (returned (failed e)) ne waits,
  )

  pub if-IsSound :
      (b : Bool) (x y : State) → (b ≡ true → IsSound x) → IsSound y → IsSound (if b then x else y)
  if-IsSound true x y hx hy = hx refl
  if-IsSound false x y hx hy = hy

  unfinished : (s : State) (at : ServerAt) → s.server ≡ at → at ≢ finished → s.server ≢ finished
  unfinished s at same ne end = ne (sym same ∙ end)

  on_from :
      (s : State) (at next : ServerAt)
      → s.server ≡ at
      → at ≢ finished
      → IsMain s.main_at s.server
      → IsMain s.main_at next
  on_from s at next same ne waits = goes_on s.main_at s.server next (unfinished s at same ne) waits

  pub serves_at :
      (s : State) (at : ServerAt) → s.server ≡ at → IsSound s → IsServing at s.listened s.failure
  serves_at s at same (cause, heard, serves, waits) =
      subst (λ (a : ServerAt). IsServing a s.listened s.failure) same serves

  pub serve_on-IsSound :
      (c : Case) (at : ServerAt) (s : State)
      → s.server ≡ at
      → IsSound s
      → IsSound (serve_on shutdown c at s)
  serve_on-IsSound done_case selecting s same sound =
      let (_, empty) = serves_at s selecting same sound in
      if-IsSound s.cancelled (shut shutdown s) s
        (λ is.
          shut-IsSound shutdown s refl (unfinished s selecting same (λ e. ground (arith, e))) empty
            (interrupted_by s.cancelled s.failure sound.0 is empty) sound)
        sound
  serve_on-IsSound listened_case selecting s same sound =
      let (open_still, empty) = serves_at s selecting same sound in
      await-IsSound s.listened s refl (unfinished s selecting same (λ e. ground (arith, e))) empty
        (λ e. absurd (open_still e)) sound
  serve_on-IsSound c stopping s same sound =
      let (shut_down, empty) = serves_at s stopping same sound in
      await-IsSound s.listened s refl (unfinished s stopping same (λ e. ground (arith, e))) empty
        (λ e. (subst IsListened e sound.1, shut_down)) sound
  serve_on-IsSound c (returned server_closed) s same sound =
      let (graceful, empty) = serves_at s (returned server_closed) same sound in
      (
        sound.0,
        sound.1,
        inl (graceful, empty),
        on_from s (returned server_closed) finished same (λ x. ground (arith, x)) sound.3,
      )
  serve_on-IsSound c (returned (failed e)) s same sound =
      let (why, empty) = serves_at s (returned (failed e)) same sound in
      (
        λ is. inr (e, refl),
        sound.1,
        (e, why, refl),
        on_from s (returned (failed e)) notified same (λ x. ground (arith, x)) sound.3,
      )
  serve_on-IsSound c notified s same sound =
      let (e, why, full) = serves_at s notified same sound in
      (
        λ is. inr (e, full),
        sound.1,
        inr (e, why, full),
        on_from s notified finished same (λ x. ground (arith, x)) sound.3,
      )
  serve_on-IsSound c finished s same sound = sound
