-- ===== src/Config/DotEnv.antt =====
-- internal/infrastructure/util/env.go: the lines that `LoadEnv` reads, as .env.example has them.
use Prim.Native.Char.{code}
use Prim.Native.String.{[], ◌∷◌, ◌++◌}
use Prim.Native.String.append
use mathlib.Core.Bool.{true≢false}
use keep_it_up.Prelude.{
  All, true, false, Option, none, some, List, String, map, ◌==◌, str_eq, ◌≡◌, refl, sym, ◌∙◌, ap,
  Bool-cases, inl, inr,
}
use keep_it_up.Text.{every, is_empty, trim_left, trim_right, trim_space}
use keep_it_up.Text.Cut.{is_free, cut-append}
use keep_it_up.Config.{Os, Env, set_env, starts_comment, load_line, load_env}
use keep_it_up.Config.Print.{
  Line, assignment, comment, blank, equals, hash, quoted, print_line, is_name_char, starts_name,
  IsPrintable, given, last_value, or_else, IsEnded-cons, IsEnded-append, quoted-IsEnded, is_not,
  trim_quotes-quoted, never_both, name_parts,
}

name-is_free : (s : String) → every is_name_char s ≡ true → is_free b'=' s ≡ true
unfolding is_free every
name-is_free [] h = refl
name-is_free (c ∷ s) h =
    let (dark, other, later) = name_parts c s h in rw (other, name-is_free s later) refl

trim_right-name : (s : String) → every is_name_char s ≡ true → trim_right s ≡ s
unfolding trim_right
trim_right-name [] h = refl
trim_right-name (c ∷ s) h =
    let (dark, other, later) = name_parts c s h in
    rw (trim_right-name s later, dark) (never_both (is_empty s) "" (c ∷ s))

trim_left-name :
    (s t : String)
    → every is_name_char s ≡ true
    → starts_name s ≡ true
    → trim_left (s ++ t) ≡ s ++ t
unfolding trim_left
trim_left-name [] t h full = absurd (true≢false (sym full))
trim_left-name (c ∷ s) t h full =
    let (dark, _, _) = name_parts c s h in rw (append.cons c s t, dark) refl

print_line-trimmed :
    (name value : String)
    → every is_name_char name ≡ true
    → starts_name name ≡ true
    → trim_space (name ++ (equals ∷ quoted value)) ≡ name ++ (equals ∷ quoted value)
unfolding trim_space
print_line-trimmed name value h full =
    ap trim_right (trim_left-name name (equals ∷ quoted value) h full)
    ∙ (IsEnded-append name (equals ∷ quoted value)
        (IsEnded-cons equals (quoted value) (quoted-IsEnded value))).0

not_comment :
    (s t : String)
    → every is_name_char s ≡ true
    → starts_name s ≡ true
    → starts_comment (s ++ t) ≡ false
not_comment [] t h full = absurd (true≢false (sym full))
not_comment (c ∷ s) t h full = rw (append.cons c s t) (is_not (code c == b'#') full)

trim_left_own : (s : String) → every is_name_char s ≡ true → starts_name s ≡ true → trim_left s ≡ s
unfolding trim_left
trim_left_own [] h full = absurd (true≢false (sym full))
trim_left_own (c ∷ s) h full = let (dark, _, _) = name_parts c s h in rw dark refl

name-trim_space :
    (s : String) → every is_name_char s ≡ true → starts_name s ≡ true → trim_space s ≡ s
unfolding trim_space
name-trim_space s h full = ap trim_right (trim_left_own s h full) ∙ trim_right-name s h

quoted-trim_space : (value : String) → trim_space (quoted value) ≡ quoted value
unfolding trim_space trim_left
quoted-trim_space value = (quoted-IsEnded value).0

assignment-loads :
    (o : Os) (name value : String) (env : Env)
    → IsPrintable o (assignment name value)
    → load_line o (print_line (assignment name value)) env ≡ set_env name value env
unfolding load_line
assignment-loads o name value env (h, full, plain, right, accepted) =
    rw
      (
        print_line-trimmed name value h full,
        not_comment name (equals ∷ quoted value) h full,
        cut-append b'=' name equals (quoted value) (name-is_free name h) refl,
        name-trim_space name h full,
        quoted-trim_space value,
        trim_quotes-quoted value plain right,
        accepted,
      )
      refl

comment-trim_space : (text : String) → trim_space (hash ∷ text) ≡ hash ∷ trim_right text
unfolding trim_space trim_left trim_right
comment-trim_space text = never_both (is_empty (trim_right text)) [] (hash ∷ trim_right text)

comment-loads :
    (o : Os) (text : String) (env : Env) → load_line o (print_line (comment text)) env ≡ env
unfolding load_line
comment-loads o text env = rw (comment-trim_space text) refl

blank-loads : (o : Os) (env : Env) → load_line o (print_line blank) env ≡ env
unfolding load_line trim_space trim_left trim_right
blank-loads o env = refl

last_wins :
    (x : Option String) (name' value name : String) (env : Env)
    → or_else x (set_env name' value env name) ≡ or_else (given x name' value name) (env name)
last_wins (some later) name' value name env = refl
last_wins none name' value name env = elim (Bool-cases (str_eq name name')) [
  | inl same ↦ rw same refl
  | inr other ↦ rw other refl
]

-- The file as .env.example writes it is read as it is meant: after `LoadEnv`, a variable has the
-- value that the last assignment to its name gives it, without the quotes, and the others are as
-- they were. The names are without white space and `=`, and do not begin a comment; the values have
-- no quotes at their ends, and are accepted by the environment.
pub load_env-print_line :
    (o : Os) (lines : List Line) (env : Env) (name : String)
    → All (IsPrintable o) lines
    → load_env o (map print_line lines) env name ≡ or_else (last_value name lines) (env name)
unfolding load_env
load_env-print_line o List.[] env name h = refl
load_env-print_line o (List.◌∷◌ (assignment name' value) lines) env name (here, later) =
    ap (λ (e : Env). load_env o (map print_line lines) e name)
      (assignment-loads o name' value env here)
    ∙ load_env-print_line o lines (set_env name' value env) name later
    ∙ last_wins (last_value name lines) name' value name env
load_env-print_line o (List.◌∷◌ (comment text) lines) env name (here, later) =
    ap (λ (e : Env). load_env o (map print_line lines) e name) (comment-loads o text env)
    ∙ load_env-print_line o lines env name later
load_env-print_line o (List.◌∷◌ blank lines) env name (here, later) =
    ap (λ (e : Env). load_env o (map print_line lines) e name) (blank-loads o env)
    ∙ load_env-print_line o lines env name later
