-- ===== src/Cmd/Serving/Fails.antt =====
-- cmd/server/main.go: a listener that fails ends the server, without a signal.
use keep_it_up.Prelude.{
  ℕ, ◌+◌, ◌-◌, ◌≤◌, Bool, true, false, Option, none, some, List, [], ◌∷◌, String, if◌then◌else◌,
  Result, ok, err, ◌≡◌, ◌≢◌, refl, ap, subst, arith,
}
use keep_it_up.Cmd.Serving.{
  Stopped, server_closed, failed, ServerAt, selecting, stopping, returned, notified, finished,
  MainAt, waiting, joining, exited, Case, done_case, listened_case, Event, interrupt,
  listener_fails, server_steps, main_steps, State, starting, first, shut, await, serve_on, joined,
  main_on, step, serving,
}
use keep_it_up.Cmd.Serving.Turns.{left, none_left, left_most}

-- The steps of the server in a schedule that take the case of the listener.
abbrev pub listened_turn : Event → ℕ
listened_turn (server_steps listened_case) = 1
listened_turn _ = 0

abbrev pub listened_turns : List Event → ℕ
listened_turns [] = 0
listened_turns (e ∷ events) = listened_turn e + listened_turns events

-- Before a shutdown the listener is not closed, and a server that stops without a failure to tell
-- has been cancelled.
abbrev Kept : ServerAt → Bool → Option Stopped → Type 0
Kept selecting cancelled listened = listened ≢ some server_closed
Kept stopping cancelled listened = cancelled ≡ true
Kept (returned server_closed) cancelled listened = cancelled ≡ true
Kept (returned (failed e)) cancelled listened = Unit
Kept notified cancelled listened = Unit
Kept finished cancelled listened = cancelled ≡ true

abbrev pub IsKept : State → Type 0
IsKept s = Kept s.server s.cancelled s.listened

-- Once the listener has returned, a turn of the server's brings it nearer to its end.
abbrev Leaves : ℕ → State → State → Type 0
Leaves n s s' =
    IsKept s' × (s.listened ≢ none → (s'.listened ≢ none) × (left s'.server ≤ left s.server - n))

waits : (s : State) → IsKept s → Leaves 0 s s
waits s k = (k, λ ne. (ne, omega arith))

interrupted-Kept :
    (at : ServerAt) (cancelled : Bool) (o : Option Stopped) → Kept at cancelled o → Kept at true o
interrupted-Kept selecting cancelled o k = k
interrupted-Kept stopping cancelled o k = refl
interrupted-Kept (returned server_closed) cancelled o k = refl
interrupted-Kept (returned (failed e)) cancelled o k = tt
interrupted-Kept notified cancelled o k = tt
interrupted-Kept finished cancelled o k = refl

failed_first : (o : Option Stopped) (e : String) → first o (failed e) ≢ none
failed_first none e h = ground (arith, h)
failed_first (some e') e h = ground (arith, h)

closed_first : (o : Option Stopped) → first o server_closed ≢ none
closed_first none h = ground (arith, h)
closed_first (some e') h = ground (arith, h)

failed-Kept :
    (at : ServerAt) (cancelled : Bool) (o : Option Stopped) (e : String)
    → Kept at cancelled o
    → Kept at cancelled (first o (failed e))
failed-Kept selecting cancelled none e k = λ h. ground (arith, h)
failed-Kept selecting cancelled (some e') e k = k
failed-Kept stopping cancelled o e k = k
failed-Kept (returned server_closed) cancelled o e k = k
failed-Kept (returned (failed e')) cancelled o e k = tt
failed-Kept notified cancelled o e k = tt
failed-Kept finished cancelled o e k = k

module _ (shutdown : Result String Unit) where
  shut-Leaves :
      (r : Result String Unit) (s : State)
      → s.server ≡ selecting
      → s.cancelled ≡ true
      → Leaves 0 s (shut r s)
  shut-Leaves (ok tt) s at is = (is, λ ne. (closed_first s.listened, omega (arith, ap left at)))
  shut-Leaves (err e) s at is = (tt, λ ne. (closed_first s.listened, omega (arith, ap left at)))

  done-Leaves :
      (b : Bool) (s : State)
      → s.cancelled ≡ b
      → s.server ≡ selecting
      → IsKept s
      → Leaves 0 s (if b then shut shutdown s else s)
  done-Leaves true s same at k = shut-Leaves shutdown s at same
  done-Leaves false s same at k = waits s k

  -- At the `select`.
  listened-Leaves :
      (o : Option Stopped) (s : State)
      → s.listened ≡ o
      → s.server ≡ selecting
      → s.listened ≢ some server_closed
      → IsKept s
      → Leaves 1 s (await o s)
  listened-Leaves none s same at open_still k = (k, λ ne. absurd (ne same))
  listened-Leaves (some server_closed) s same at open_still k = absurd (open_still same)
  listened-Leaves (some (failed e)) s same at open_still k =
      (tt, λ ne. (ne, omega (arith, ap left at)))

  -- Behind a shutdown.
  await-Leaves :
      (n : ℕ) (o : Option Stopped) (s : State)
      → n ≤ 1
      → s.listened ≡ o
      → s.server ≡ stopping
      → s.cancelled ≡ true
      → IsKept s
      → Leaves n s (await o s)
  await-Leaves n none s le same at is k = (k, λ ne. absurd (ne same))
  await-Leaves n (some server_closed) s le same at is k =
      (is, λ ne. (ne, omega (arith, ap left at)))
  await-Leaves n (some (failed e)) s le same at is k = (tt, λ ne. (ne, omega (arith, ap left at)))

  one_turn : (c : Case) → listened_turn (server_steps c) ≤ 1
  one_turn done_case = omega arith
  one_turn listened_case = omega arith

  serve_on-Leaves :
      (c : Case) (at : ServerAt) (s : State)
      → s.server ≡ at
      → Kept at s.cancelled s.listened
      → IsKept s
      → Leaves (listened_turn (server_steps c)) s (serve_on shutdown c at s)
  serve_on-Leaves done_case selecting s same k whole = done-Leaves s.cancelled s refl same whole
  serve_on-Leaves listened_case selecting s same k whole =
      listened-Leaves s.listened s refl same k whole
  serve_on-Leaves c stopping s same k whole =
      await-Leaves (listened_turn (server_steps c)) s.listened s (one_turn c) refl same k whole
  serve_on-Leaves c (returned server_closed) s same k whole =
      (k, λ ne. (ne, omega (arith, ap left same, one_turn c)))
  serve_on-Leaves c (returned (failed e)) s same k whole =
      (tt, λ ne. (ne, omega (arith, ap left same, one_turn c)))
  serve_on-Leaves c notified s same k whole =
      (refl, λ ne. (ne, omega (arith, ap left same, one_turn c)))
  serve_on-Leaves c finished s same k whole = (whole, λ ne. (ne, omega (arith, ap left same)))

  joined-Leaves : (at : ServerAt) (s : State) → IsKept s → Leaves 0 s (joined shutdown at s)
  joined-Leaves finished s k = waits s k
  joined-Leaves selecting s k = waits s k
  joined-Leaves stopping s k = waits s k
  joined-Leaves (returned e) s k = waits s k
  joined-Leaves notified s k = waits s k

  joining-Leaves :
      (b : Bool) (s : State)
      → IsKept s
      → Leaves 0 s (if b then record s { main_at = joining } else s)
  joining-Leaves true s k = waits s k
  joining-Leaves false s k = waits s k

  main_on-Leaves : (m : MainAt) (s : State) → IsKept s → Leaves 0 s (main_on shutdown m s)
  main_on-Leaves waiting s k = joining-Leaves s.cancelled s k
  main_on-Leaves joining s k = joined-Leaves s.server s k
  main_on-Leaves (exited c) s k = waits s k

  step-Leaves : (e : Event) (s : State) → IsKept s → Leaves (listened_turn e) s (step shutdown e s)
  step-Leaves interrupt s k =
      (interrupted-Kept s.server s.cancelled s.listened k, λ ne. (ne, omega arith))
  step-Leaves (listener_fails e) s k = (
    failed-Kept s.server s.cancelled s.listened e k,
    λ ne. (failed_first s.listened e, omega arith),
  )
  step-Leaves (server_steps c) s k = serve_on-Leaves c s.server s refl k k
  step-Leaves main_steps s k = main_on-Leaves s.main_at s k

  pub serving-Leaves :
      (events : List Event) (s : State)
      → IsKept s
      → IsKept (serving shutdown events s)
        × (s.listened ≢ none
            → left (serving shutdown events s).server ≤ left s.server - listened_turns events)
  unfolding serving
  serving-Leaves [] s k = (k, λ ne. omega arith)
  serving-Leaves (e ∷ events) s k =
      let (k', on) = step-Leaves e s k in
      let (k'', rest) = serving-Leaves events (step shutdown e s) k' in
      (k'', λ ne. let (ne', near) = on ne in let nearer = rest ne' in omega (arith, near, nearer))

  finished-cancelled :
      (at : ServerAt) (cancelled : Bool) (o : Option Stopped)
      → Kept at cancelled o
      → left at ≤ 0
      → cancelled ≡ true
  finished-cancelled at cancelled o k end =
      subst (λ (a : ServerAt). Kept a cancelled o) (none_left at end) k

  -- When the listener has failed, four turns of the server's bring it to its end, and the main
  -- goroutine has been woken.
  pub failing-ends :
      (before between : List Event) (e : String)
      → 4 ≤ listened_turns between
      → (left
            (serving shutdown between
              (step shutdown (listener_fails e) (serving shutdown before starting))).server
          ≤ 0)
        × ((serving shutdown between
              (step shutdown (listener_fails e) (serving shutdown before starting))).cancelled
            ≡ true)
  failing-ends before between e four =
      let reached = serving shutdown before starting in
      let (k, _) = serving-Leaves before starting (λ h. ground (arith, h)) in
      let failed_now = step shutdown (listener_fails e) reached in
      let (k', near) =
        serving-Leaves between failed_now
          (failed-Kept reached.server reached.cancelled reached.listened e k) in
      let last = near (failed_first reached.listened e) in
      let end : left (serving shutdown between failed_now).server ≤ 0 =
        omega (arith, last, four, left_most reached.server) in
      let stopped = serving shutdown between failed_now in
      (end, finished-cancelled stopped.server stopped.cancelled stopped.listened k' end)
