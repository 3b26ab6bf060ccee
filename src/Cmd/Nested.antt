-- ===== src/Cmd/Nested.antt =====
-- cmd: what is opened is closed, on every path to a return.
use keep_it_up.Prelude.{
  Bool, true, false, Option, none, some, List, [], ◌∷◌, ◌++◌, map, String, if◌then◌else◌, Result,
  ok, err, map_err, ◌≡◌, refl, sym, ◌∙◌, ap, arith, ◌||◌, ◌&&◌,
}
use keep_it_up.Cmd.Defer.{
  Resource, signals, database, valkey_client, Effect, opened, used, closed, Failure, Frame, Program,
  ◌>>=◌, and_then, called, return, hold, use_of, entered, effects_of, enter,
}

abbrev same : Resource → Resource → Bool
same signals signals = true
same database database = true
same valkey_client valkey_client = true
same _ _ = false

abbrev among : Resource → List Resource → Bool
among r [] = false
among r (x ∷ xs) = same r x || among r xs

abbrev close_top : Resource → List Resource → Option (List Resource)
close_top r [] = none
close_top r (x ∷ xs) = if same r x then some xs else none

-- What is open after an effect, the latest first: only what is open is used, only what was opened
-- last is closed, and nothing is opened twice.
abbrev pub effect : Effect → List Resource → Option (List Resource)
effect (opened r) open_now = if among r open_now then none else some (r ∷ open_now)
effect (used r) open_now = if among r open_now then some open_now else none
effect (closed r) open_now = close_top r open_now

abbrev carry :
    Option (List Resource) → (List Resource → Option (List Resource)) → Option (List Resource)
carry none rest = none
carry (some s) rest = rest s

abbrev pub effects : List Effect → List Resource → Option (List Resource)
effects [] s = some s
effects (e ∷ es) s = carry (effect e s) (effects es)

-- From nothing open to nothing open.
abbrev pub IsNested : List Effect → Type 0
IsNested es = effects es [] ≡ some []

carry-append :
    (o : Option (List Resource)) (xs ys : List Effect)
    → ((s : List Resource) → effects (xs ++ ys) s ≡ carry (effects xs s) (effects ys))
    → carry o (effects (xs ++ ys)) ≡ carry (carry o (effects xs)) (effects ys)
carry-append none xs ys h = refl
carry-append (some s) xs ys h = h s

effects-append :
    (xs ys : List Effect) (s : List Resource)
    → effects (xs ++ ys) s ≡ carry (effects xs s) (effects ys)
effects-append [] ys s = refl
effects-append (x ∷ xs) ys s = carry-append (effect x s) xs ys (effects-append xs ys)

same_refl : (r : Resource) → same r r ≡ true
same_refl signals = refl
same_refl database = refl
same_refl valkey_client = refl

-- The deferred calls close what is open.
closing : (s : List Resource) → effects (map closed s) s ≡ some []
closing [] = refl
closing (r ∷ s) = rw (same_refl r) (closing s)

-- What is open in a frame, with its closing deferred.
abbrev IsOpen : List Resource → Frame → Type 0
IsOpen s f = (effects f.done [] ≡ some s) × (f.deferred ≡ map closed s)

IsOpen-IsNested : (s : List Resource) (f : Frame) → IsOpen s f → IsNested (effects_of f)
IsOpen-IsNested s f (now, later) =
    ap (λ (es : List Effect). effects (f.done ++ es) []) later
    ∙ effects-append f.done (map closed s) []
    ∙ ap (λ (o : Option (List Resource)). carry o (effects (map closed s))) now
    ∙ closing s

module _ {A : Type 0} where
  -- What is open behind a part of a function, or at an early return.
  abbrev Leaves : List Resource → Result Failure A × Frame → Type 0
  Leaves s (ok a, f) = IsOpen s f
  Leaves s (err e, f) = (t : List Resource) × IsOpen t f

  -- A part of a function that finds the first resources open, and leaves the second open.
  pub record Keeps (s t : List Resource) (m : Program A) : Type 0 where
    pub keeps : (f : Frame) → IsOpen s f → Leaves t (m f)

  Leaves-IsNested :
      (s : List Resource) (x : Result Failure A × Frame) → Leaves s x → IsNested (effects_of x.1)
  Leaves-IsNested s (ok a, f) h = IsOpen-IsNested s f h
  Leaves-IsNested s (err e, f) (t, h) = IsOpen-IsNested t f h

  pub enter-IsNested :
      (s : List Resource) (m : Program A) → Keeps [] s m → IsNested (effects_of (enter m).1)
  enter-IsNested s m kept = Leaves-IsNested s (enter m) (kept.keeps entered (refl, refl))

  pub return-Keeps : (s : List Resource) (a : A) → Keeps s s (return a)
  return-Keeps s a = record { keeps = λ f h. h }

  pub called-Keeps :
      {E : Type 0} (s : List Resource) (failure : E → Failure) (r : Result E A)
      → Keeps s s (called failure r)
  called-Keeps s failure (ok a) = record { keeps = λ f h. h }
  called-Keeps s failure (err e) = record { keeps = λ f h. (s, h) }

pub hold-Keeps :
    (s : List Resource) (r : Resource) (failure : String → Failure) (answer : Result String Unit)
    → among r s ≡ false
    → Keeps s (r ∷ s) (hold r failure answer)
hold-Keeps s r failure (err e) new = record { keeps = λ f h. (s, h) }
hold-Keeps s r failure (ok tt) new = record {
  keeps = λ f (now, later). (
    effects-append f.done (opened r ∷ []) []
        ∙ ap (λ (o : Option (List Resource)). carry o (effects (opened r ∷ []))) now
        ∙ rw new refl,
    ap (λ (es : List Effect). closed r ∷ es) later,
  );
}

pub use_of-Keeps : (s : List Resource) (r : Resource) → among r s ≡ true → Keeps s s (use_of r)
use_of-Keeps s r there = record {
  keeps = λ f (now, later). (
    effects-append f.done (used r ∷ []) []
        ∙ ap (λ (o : Option (List Resource)). carry o (effects (used r ∷ []))) now
        ∙ rw there refl,
    later,
  );
}

module _ {A B : Type 0} where
  and_then-Leaves :
      (s t : List Resource) (x : Result Failure A × Frame) (rest : A → Program B)
      → Leaves s x
      → ((a : A) → Keeps s t (rest a))
      → Leaves t (and_then x rest)
  and_then-Leaves s t (ok a, f) rest h after = (after a).keeps f h
  and_then-Leaves s t (err e, f) rest h after = h

  pub >>=-Keeps :
      (r s t : List Resource) (m : Program A) (rest : A → Program B)
      → Keeps r s m
      → ((a : A) → Keeps s t (rest a))
      → Keeps r t (m >>= rest)
  unfolding ◌>>=◌
  >>=-Keeps r s t m rest before after = record {
    keeps = λ f h. and_then-Leaves s t (m f) rest (before.keeps f h) after;
  }

  -- A part that leaves open what it finds, and one that opens a resource.
  pub same-Keeps :
      (s t : List Resource) (m : Program A) (rest : A → Program B)
      → Keeps s s m
      → ((a : A) → Keeps s t (rest a))
      → Keeps s t (m >>= rest)
  same-Keeps s t m rest before after = >>=-Keeps s s t m rest before after

pub hold_then-Keeps :
    {B : Type 0} (s t : List Resource) (r : Resource) (failure : String → Failure)
    (answer : Result String Unit) (rest : Unit → Program B)
    → among r s ≡ false
    → ((a : Unit) → Keeps (r ∷ s) t (rest a))
    → Keeps s t (hold r failure answer >>= rest)
hold_then-Keeps s t r failure answer rest new after =
    >>=-Keeps s (r ∷ s) t (hold r failure answer) rest (hold-Keeps s r failure answer new) after

pub ruleset open_rules =
    (hold_then-Keeps, same-Keeps, called-Keeps, return-Keeps, use_of-Keeps, refl)
