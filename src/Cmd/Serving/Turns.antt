-- ===== src/Cmd/Serving/Turns.antt =====
-- cmd/server/main.go: the steps that bring the server nearer to its end.
use keep_it_up.Prelude.{
  ℕ, ◌+◌, ◌-◌, ◌≤◌, Bool, true, false, Option, none, some, List, [], ◌∷◌, String, if◌then◌else◌,
  Result, ok, err, ◌≡◌, ◌≢◌, refl, ap, subst, arith,
}
use keep_it_up.Cmd.Serving.{
  Stopped, server_closed, failed, ServerAt, selecting, stopping, returned, notified, finished,
  MainAt, waiting, joining, exited, Case, done_case, listened_case, Event, interrupt,
  listener_fails, server_steps, main_steps, State, first, shut, await, serve_on, joined, main_on,
  step, serving,
}

-- The steps of the server in a schedule that take the case of the signal, and those of the main
-- goroutine.
abbrev turn : Event → ℕ
turn (server_steps done_case) = 1
turn _ = 0

abbrev pub main_turn : Event → ℕ
main_turn main_steps = 1
main_turn _ = 0

abbrev pub turns : List Event → ℕ
turns [] = 0
turns (e ∷ events) = turn e + turns events

abbrev pub main_turns : List Event → ℕ
main_turns [] = 0
main_turns (e ∷ events) = main_turn e + main_turns events

-- How many steps are left.
abbrev pub left : ServerAt → ℕ
left selecting = 4
left stopping = 3
left (returned e) = 2
left notified = 1
left finished = 0

pub none_left : (at : ServerAt) → left at ≤ 0 → at ≡ finished
none_left finished h = refl
none_left selecting h = absurd (omega (arith, h))
none_left stopping h = absurd (omega (arith, h))
none_left (returned e) h = absurd (omega (arith, h))
none_left notified h = absurd (omega (arith, h))

pub left_most : (at : ServerAt) → left at ≤ 4
left_most selecting = omega arith
left_most stopping = omega arith
left_most (returned e) = omega arith
left_most notified = omega arith
left_most finished = omega arith

abbrev pub main_left : MainAt → ℕ
main_left waiting = 2
main_left joining = 1
main_left (exited c) = 0

-- Behind a shutdown the listener has returned.
abbrev IsHeard : ServerAt → Option Stopped → Type 0
IsHeard stopping o = o ≢ none
IsHeard _ o = Unit

abbrev pub HasHeard : State → Type 0
HasHeard s = IsHeard s.server s.listened

-- The state does not fall back: the signal and what was heard stay, and a turn of the server's has
-- brought it nearer to its end.
abbrev GoesOn : ℕ → State → State → Type 0
GoesOn n s s' =
    HasHeard s'
    × (s.cancelled ≡ true → (s'.cancelled ≡ true) × (left s'.server ≤ left s.server - n))

first-ne-none : (o : Option Stopped) (e : Stopped) → first o e ≢ none
first-ne-none none e h = ground (arith, h)
first-ne-none (some e') e h = ground (arith, h)

hears : (at : ServerAt) (o : Option Stopped) (e : Stopped) → IsHeard at o → IsHeard at (first o e)
hears stopping o e h = first-ne-none o e
hears selecting o e h = tt
hears (returned e') o e h = tt
hears notified o e h = tt
hears finished o e h = tt

stays : (s : State) → HasHeard s → GoesOn 0 s s
stays s h = (h, λ is. (is, omega arith))

module _ (shutdown : Result String Unit) where
  shut-GoesOn : (r : Result String Unit) (s : State) → s.server ≡ selecting → GoesOn 1 s (shut r s)
  shut-GoesOn (ok tt) s at =
      (first-ne-none s.listened server_closed, λ is. (is, omega (arith, ap left at)))
  shut-GoesOn (err e) s at = (tt, λ is. (is, omega (arith, ap left at)))

  -- Behind a shutdown.
  await-GoesOn :
      (o : Option Stopped) (s : State) → s.server ≡ stopping → o ≢ none → GoesOn 1 s (await o s)
  await-GoesOn none s at ne = absurd (ne refl)
  await-GoesOn (some e) s at ne = (tt, λ is. (is, omega (arith, ap left at)))

  -- At the `select`.
  listened-GoesOn :
      (o : Option Stopped) (s : State) → s.server ≡ selecting → HasHeard s → GoesOn 0 s (await o s)
  listened-GoesOn none s at h = stays s h
  listened-GoesOn (some e) s at h = (tt, λ is. (is, omega (arith, ap left at)))

  done-GoesOn :
      (b : Bool) (s : State)
      → s.cancelled ≡ b
      → s.server ≡ selecting
      → HasHeard s
      → GoesOn 1 s (if b then shut shutdown s else s)
  done-GoesOn true s same at h = shut-GoesOn shutdown s at
  done-GoesOn false s same at h = (h, λ is. absurd (ground (arith, is, same)))

  at_turn : (c : Case) (s s' : State) → GoesOn 1 s s' → GoesOn (turn (server_steps c)) s s'
  at_turn done_case s s' on = on
  at_turn listened_case s s' (h, on) =
      (h, λ is. let (is', near) = on is in (is', omega (arith, near)))

  serve_on-GoesOn :
      (c : Case) (at : ServerAt) (s : State)
      → s.server ≡ at
      → HasHeard s
      → GoesOn (turn (server_steps c)) s (serve_on shutdown c at s)
  serve_on-GoesOn done_case selecting s same h = done-GoesOn s.cancelled s refl same h
  serve_on-GoesOn listened_case selecting s same h = listened-GoesOn s.listened s same h
  serve_on-GoesOn c stopping s same h =
      at_turn c s (await s.listened s)
        (await-GoesOn s.listened s same (subst (λ (a : ServerAt). IsHeard a s.listened) same h))
  serve_on-GoesOn c (returned server_closed) s same h =
      at_turn c s (record s { server = finished }) (tt, λ is. (is, omega (arith, ap left same)))
  serve_on-GoesOn c (returned (failed e)) s same h =
      at_turn c s (record s { failure = some e; server = notified })
        (tt, λ is. (is, omega (arith, ap left same)))
  serve_on-GoesOn c notified s same h =
      at_turn c s (record s { cancelled = true; server = finished })
        (tt, λ is. (refl, omega (arith, ap left same)))
  serve_on-GoesOn c finished s same h = at_turn c s s (h, λ is. (is, omega (arith, ap left same)))

  joined-GoesOn : (at : ServerAt) (s : State) → HasHeard s → GoesOn 0 s (joined shutdown at s)
  joined-GoesOn finished s h = stays s h
  joined-GoesOn selecting s h = stays s h
  joined-GoesOn stopping s h = stays s h
  joined-GoesOn (returned e) s h = stays s h
  joined-GoesOn notified s h = stays s h

  if-GoesOn :
      (b : Bool) (s s' : State) → HasHeard s → GoesOn 0 s s' → GoesOn 0 s (if b then s' else s)
  if-GoesOn true s s' h on = on
  if-GoesOn false s s' h on = stays s h

  main_on-GoesOn : (m : MainAt) (s : State) → HasHeard s → GoesOn 0 s (main_on shutdown m s)
  main_on-GoesOn waiting s h =
      if-GoesOn s.cancelled s (record s { main_at = joining }) h (h, λ is. (is, omega arith))
  main_on-GoesOn joining s h = joined-GoesOn s.server s h
  main_on-GoesOn (exited c) s h = stays s h

  pub step-GoesOn : (e : Event) (s : State) → HasHeard s → GoesOn (turn e) s (step shutdown e s)
  step-GoesOn interrupt s h = (h, λ is. (refl, omega arith))
  step-GoesOn (listener_fails e) s h =
      (hears s.server s.listened (failed e) h, λ is. (is, omega arith))
  step-GoesOn (server_steps c) s h = serve_on-GoesOn c s.server s refl h
  step-GoesOn main_steps s h = main_on-GoesOn s.main_at s h

  pub serving-GoesOn :
      (events : List Event) (s : State)
      → HasHeard s
      → GoesOn (turns events) s (serving shutdown events s)
  unfolding serving
  serving-GoesOn [] s h = stays s h
  serving-GoesOn (e ∷ events) s h =
      let s' = step shutdown e s in
      let (h', on) = step-GoesOn e s h in
      let (h'', rest) = serving-GoesOn events s' h' in
      (
        h'',
        λ is.
            let (is', near) = on is in
            let (is'', nearer) = rest is' in (is'', omega (arith, near, nearer)),
      )
