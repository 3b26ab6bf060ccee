-- ===== src/Cmd/Serving/Stops.antt =====
-- cmd/server/main.go: a signal ends the server, and so does a listener that fails.
use keep_it_up.Prelude.{
  ℕ, ◌-◌, ◌≤◌, Bool, true, false, List, [], ◌∷◌, ◌++◌, String, if◌then◌else◌, Result, ◌≡◌, refl,
  ◌∙◌, ap, arith,
}
use keep_it_up.Cmd.Serving.{
  ServerAt, selecting, stopping, returned, notified, finished, MainAt, waiting, joining, exited,
  Case, Event, interrupt, listener_fails, server_steps, main_steps, State, starting, serve_on,
  joined, main_on, step, serving,
}
use keep_it_up.Cmd.Serving.Turns.{
  main_turn, turns, main_turns, left, main_left, HasHeard, step-GoesOn, serving-GoesOn, none_left,
  left_most,
}
use keep_it_up.Cmd.Serving.Fails.{listened_turns, failing-ends}

-- What ends the server, and four turns of its goroutine that take the case of it.
abbrev pub Wakes : Event → List Event → Type 0
Wakes interrupt between = 4 ≤ turns between
Wakes (listener_fails e) between = 4 ≤ listened_turns between
Wakes _ between = ⊥

module _ (shutdown : Result String Unit) where
  serving-append :
      (xs ys : List Event) (s : State)
      → serving shutdown (xs ++ ys) s ≡ serving shutdown ys (serving shutdown xs s)
  unfolding serving
  serving-append [] ys s = refl
  serving-append (x ∷ xs) ys s = serving-append xs ys (step shutdown x s)

  at_end : (m : MainAt) → main_left m ≤ 0 → (c : ℕ) × (m ≡ exited c)
  at_end (exited c) h = (c, refl)
  at_end waiting h = absurd (omega (arith, h))
  at_end joining h = absurd (omega (arith, h))

  joined-nearer :
      (at : ServerAt) (s : State) → at ≡ finished → main_left (joined shutdown at s).main_at ≤ 0
  joined-nearer finished s h = omega arith
  joined-nearer selecting s h = absurd (ground (arith, h))
  joined-nearer stopping s h = absurd (ground (arith, h))
  joined-nearer (returned e) s h = absurd (ground (arith, h))
  joined-nearer notified s h = absurd (ground (arith, h))

  joining-nearer :
      (b : Bool) (s : State)
      → b ≡ true
      → main_left (if b then record s { main_at = joining } else s).main_at ≤ 1
  joining-nearer true s h = omega arith
  joining-nearer false s h = absurd (ground (arith, h))

  main_on-nearer :
      (m : MainAt) (s : State)
      → s.main_at ≡ m
      → s.cancelled ≡ true
      → s.server ≡ finished
      → main_left (main_on shutdown m s).main_at ≤ main_left m - 1
  main_on-nearer waiting s at is end = joining-nearer s.cancelled s is
  main_on-nearer joining s at is end = joined-nearer s.server s end
  main_on-nearer (exited c) s at is end = omega (arith, ap main_left at)

  serve_on-main_at :
      (c : Case) (at : ServerAt) (s : State)
      → at ≡ finished
      → (serve_on shutdown c at s).main_at ≡ s.main_at
  serve_on-main_at c finished s h = refl
  serve_on-main_at c selecting s h = absurd (ground (arith, h))
  serve_on-main_at c stopping s h = absurd (ground (arith, h))
  serve_on-main_at c (returned e) s h = absurd (ground (arith, h))
  serve_on-main_at c notified s h = absurd (ground (arith, h))

  step-nearer :
      (e : Event) (s : State)
      → s.cancelled ≡ true
      → s.server ≡ finished
      → main_left (step shutdown e s).main_at ≤ main_left s.main_at - main_turn e
  step-nearer interrupt s is end = omega arith
  step-nearer (listener_fails e) s is end = omega arith
  step-nearer (server_steps c) s is end =
      omega (arith, ap main_left (serve_on-main_at c s.server s end))
  step-nearer main_steps s is end = main_on-nearer s.main_at s refl is end

  serving-nearer :
      (events : List Event) (s : State)
      → HasHeard s
      → s.cancelled ≡ true
      → left s.server ≤ 0
      → main_left (serving shutdown events s).main_at ≤ main_left s.main_at - main_turns events
  unfolding serving
  serving-nearer [] s h is end = omega arith
  serving-nearer (e ∷ events) s h is end =
      let (h', on) = step-GoesOn shutdown e s h in
      let (is', near) = on is in
      let now = step-nearer e s is (none_left s.server end) in
      let later = serving-nearer events (step shutdown e s) h' is' (omega (arith, near, end)) in
      omega (arith, now, later)

  main_left_most : (m : MainAt) → main_left m ≤ 2
  main_left_most waiting = omega arith
  main_left_most joining = omega arith
  main_left_most (exited c) = omega arith

  -- Where the server's goroutine has finished and the main one has been woken, two steps of it end
  -- the program.
  woken_ends :
      (after : List Event) (s : State)
      → HasHeard s
      → s.cancelled ≡ true
      → left s.server ≤ 0
      → 2 ≤ main_turns after
      → (c : ℕ) × ((serving shutdown after s).main_at ≡ exited c)
  woken_ends after s h is end two =
      at_end (serving shutdown after s).main_at
        (omega (arith, serving-nearer after s h is end, two, main_left_most s.main_at))

  serving-three :
      (before between after : List Event) (e : Event)
      → serving shutdown (before ++ e ∷ (between ++ after)) starting
        ≡ serving shutdown after
            (serving shutdown between (step shutdown e (serving shutdown before starting)))
  unfolding serving
  serving-three before between after e =
      serving-append before (e ∷ (between ++ after)) starting
      ∙ serving-append between after (step shutdown e (serving shutdown before starting))

  stopped_at :
      (before between after : List Event) (e : Event)
      → ((c : ℕ) × ((serving shutdown after (
              serving shutdown between
                (step shutdown e (serving shutdown before starting)))).main_at
            ≡ exited c))
      → (c : ℕ) × ((serving shutdown (before ++ e ∷ (between ++ after)) starting).main_at
          ≡ exited c)
  stopped_at before between after e (c, end) =
      (c, ap (λ (s : State). s.main_at) (serving-three before between after e) ∙ end)

  -- Whatever has happened before a signal, or before the listener fails, and whatever happens
  -- besides: four steps of the server's goroutine that take the case of it, where they have the
  -- choice, and after them two of the main goroutine end the program with an exit code. No
  -- goroutine waits for ever.
  pub serving_stops :
      (before between after : List Event) (e : Event)
      → Wakes e between
      → 2 ≤ main_turns after
      → (c : ℕ) × ((serving shutdown (before ++ e ∷ (between ++ after)) starting).main_at
          ≡ exited c)
  serving_stops before between after interrupt four two =
      let reached = serving shutdown before starting in
      let signalled = record reached { cancelled = true } in
      let (h, _) = serving-GoesOn shutdown before starting tt in
      let (h', on) = serving-GoesOn shutdown between signalled h in
      let (is, near) = on refl in
      stopped_at before between after interrupt (
        woken_ends after (serving shutdown between signalled) h' is
          (omega (arith, near, four, left_most reached.server)) two)
  serving_stops before between after (listener_fails e) four two =
      let (h, _) = serving-GoesOn shutdown before starting tt in
      let failed_now = step shutdown (listener_fails e) (serving shutdown before starting) in
      let (h1, _) = step-GoesOn shutdown (listener_fails e) (serving shutdown before starting) h in
      let (h2, _) = serving-GoesOn shutdown between failed_now h1 in
      let (end, is) = failing-ends shutdown before between e four in
      stopped_at before between after (listener_fails e)
        (woken_ends after (serving shutdown between failed_now) h2 is end two)
  serving_stops before between after (server_steps c) four two = absurd four
  serving_stops before between after main_steps four two = absurd four
