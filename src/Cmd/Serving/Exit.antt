-- ===== src/Cmd/Serving/Exit.antt =====
-- cmd/server/main.go: what an exit code of the server means.
use mathlib.Core.List.{Memᴰ}
use mathlib.Core.List.Memᴰ.{head, tail}
use keep_it_up.Prelude.{
  All-map, All, Option, none, some, List, [], ◌∷◌, String, Result, ◌≡◌, ◌≢◌, refl, subst, ◌⊎◌, inl,
  inr, ℕ, arith,
}
use keep_it_up.Cmd.Serving.{
  Stopped, server_closed, failed, ServerAt, selecting, stopping, returned, notified, finished,
  MainAt, waiting, joining, exited, Event, interrupt, listener_fails, server_steps, main_steps,
  State, starting, first, code, joined, main_on, step, serving,
}
use keep_it_up.Cmd.Serving.Sound.{
  IsGraceful, IsCause, IsServing, IsEnd, IsMain, IsSound, Happens, first-IsListened, if-IsSound,
  serves_at, serve_on-IsSound,
}

module _ (shutdown : Result String Unit) (Interrupted : Type 0) (Fails : String → Type 0) where
  not_closed :
      (o : Option Stopped) (e : String)
      → o ≢ some server_closed
      → first o (failed e) ≢ some server_closed
  not_closed none e ne end = ground (arith, end)
  not_closed (some e') e ne end = ne end

  hears-IsServing :
      (at : ServerAt) (o : Option Stopped) (f : Option String) (e : String)
      → IsServing shutdown Interrupted Fails at o f
      → IsServing shutdown Interrupted Fails at (first o (failed e)) f
  hears-IsServing selecting o f e (ne, empty) = (not_closed o e ne, empty)
  hears-IsServing stopping o f e h = h
  hears-IsServing (returned server_closed) o f e h = h
  hears-IsServing (returned (failed e')) o f e h = h
  hears-IsServing notified o f e h = h
  hears-IsServing finished o f e h = h

  code-IsEnd :
      (o : Option String)
      → (IsGraceful shutdown Interrupted Fails × (o ≡ none))
        ⊎ ((e : String) × IsCause shutdown Interrupted Fails e × (o ≡ some e))
      → IsEnd shutdown Interrupted Fails (code shutdown o)
  code-IsEnd none (inl (graceful, empty)) = inl (refl, graceful)
  code-IsEnd (some e) (inl (graceful, empty)) = absurd (ground (arith, empty))
  code-IsEnd none (inr (e, why, full)) = absurd (ground (arith, full))
  code-IsEnd (some e') (inr (e, why, full)) = inr (refl, (e, why))

  joined-IsSound :
      (at : ServerAt) (s : State)
      → s.server ≡ at
      → IsSound shutdown Interrupted Fails s
      → IsSound shutdown Interrupted Fails (joined shutdown at s)
  joined-IsSound finished s same sound = (
    sound.0,
    sound.1,
    sound.2,
    (same, code-IsEnd s.failure (serves_at shutdown Interrupted Fails s finished same sound)),
  )
  joined-IsSound selecting s same sound = sound
  joined-IsSound stopping s same sound = sound
  joined-IsSound (returned e) s same sound = sound
  joined-IsSound notified s same sound = sound

  main_on-IsSound :
      (m : MainAt) (s : State)
      → IsSound shutdown Interrupted Fails s
      → IsSound shutdown Interrupted Fails (main_on shutdown m s)
  main_on-IsSound waiting s sound =
      if-IsSound shutdown Interrupted Fails s.cancelled (record s { main_at = joining }) s
        (λ is. (sound.0, sound.1, sound.2, tt)) sound
  main_on-IsSound joining s sound = joined-IsSound s.server s refl sound
  main_on-IsSound (exited c) s sound = sound

  step-IsSound :
      (e : Event) (s : State)
      → Happens shutdown Interrupted Fails e
      → IsSound shutdown Interrupted Fails s
      → IsSound shutdown Interrupted Fails (step shutdown e s)
  step-IsSound interrupt s came (cause, heard, serves, waits) =
      (λ is. inl came, heard, serves, waits)
  step-IsSound (listener_fails e) s fails (cause, heard, serves, waits) = (
    cause,
    first-IsListened shutdown Interrupted Fails s.listened (failed e) fails heard,
    hears-IsServing s.server s.listened s.failure e serves,
    waits,
  )
  step-IsSound (server_steps c) s h sound =
      serve_on-IsSound shutdown Interrupted Fails c s.server s refl sound
  step-IsSound main_steps s h sound = main_on-IsSound s.main_at s sound

  serving-IsSound :
      (events : List Event) (s : State)
      → All (Happens shutdown Interrupted Fails) events
      → IsSound shutdown Interrupted Fails s
      → IsSound shutdown Interrupted Fails (serving shutdown events s)
  unfolding serving
  serving-IsSound [] s h sound = sound
  serving-IsSound (e ∷ events) s (now, later) sound =
      serving-IsSound events (step shutdown e s) later (step-IsSound e s now sound)

  starting-IsSound : IsSound shutdown Interrupted Fails starting
  starting-IsSound = (λ e. absurd (ground (arith, e)), tt, (λ e. ground (arith, e), refl), tt)

  ends :
      (m : MainAt) (c : ℕ) (a : ServerAt)
      → m ≡ exited c
      → IsMain shutdown Interrupted Fails m a
      → (a ≡ finished) × IsEnd shutdown Interrupted Fails c
  ends m c a same h = subst (λ (x : MainAt). IsMain shutdown Interrupted Fails x a) same h

  serving_ends :
      (events : List Event) (c : ℕ)
      → All (Happens shutdown Interrupted Fails) events
      → (serving shutdown events starting).main_at ≡ exited c
      → ((serving shutdown events starting).server ≡ finished) × IsEnd shutdown Interrupted Fails c
  serving_ends events c all end =
      let last = serving shutdown events starting in
      ends last.main_at c last.server end (serving-IsSound events starting all starting-IsSound).3

all_in : {A : Type 0} (xs : List A) → All (λ x. Memᴰ x xs) xs
all_in [] = tt
all_in (x ∷ xs) =
    (head refl, All-map (λ y. Memᴰ y xs) (λ y. Memᴰ y (x ∷ xs)) xs (λ y. tail) (all_in xs))

happening :
    (shutdown : Result String Unit) (events : List Event) (e : Event)
    → Memᴰ e events
    → Happens shutdown (Memᴰ interrupt events) (λ t. Memᴰ (listener_fails t) events) e
happening shutdown events interrupt h = h
happening shutdown events (listener_fails e) h = h
happening shutdown events (server_steps c) h = tt
happening shutdown events main_steps h = tt

-- Whatever the order of the steps, of the signals and of the listener's error: when the server has
-- exited, the goroutine that serves has finished, and either the exit code is 0, a signal has come
-- and the shutdown had no error, or it is 1, and the listener has failed or the shutdown has.
pub serving-IsEnd :
    (shutdown : Result String Unit) (events : List Event) (c : ℕ)
    → (serving shutdown events starting).main_at ≡ exited c
    → ((serving shutdown events starting).server ≡ finished)
      × IsEnd shutdown (Memᴰ interrupt events) (λ e. Memᴰ (listener_fails e) events) c
serving-IsEnd shutdown events c end =
    serving_ends shutdown (Memᴰ interrupt events) (λ e. Memᴰ (listener_fails e) events) events c
      (All-map (λ e. Memᴰ e events) _ events (happening shutdown events) (all_in events)) end
