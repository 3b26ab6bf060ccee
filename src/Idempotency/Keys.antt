-- ===== src/Idempotency/Keys.antt =====
-- internal/infrastructure/driver/httpadapter/idempotency.go: `idempotencyStoreKey` keeps the
-- players apart.
use Prim.Native.String.{[], ◌∷◌, ◌++◌}
use Prim.Native.String.append
use mathlib.Core.Bool.{true≢false}
use text.Mathlib.TextLemmas.{append_assoc}
use keep_it_up.Prelude.{ℤ, true, Option, none, some, String, str_eq, ◌≡◌, refl, sym, ◌∙◌, ap, arith}
use keep_it_up.Number.{itoa, parse_int}
use keep_it_up.Number.RoundTrip.{FitsInt64, parse_int-itoa}
use keep_it_up.Number.Free.{is_free-itoa}
use keep_it_up.Text.{every}
use keep_it_up.Text.Cut.{is_free, cut_unique}
use keep_it_up.Http.{User, player_id}
use keep_it_up.Idempotency.{scoped, idempotency_store_key}

abbrev pub FitsId : Option ℤ → Type 0
FitsId none = Unit
FitsId (some id) = FitsInt64 id

colon-append : (s : String) → ":" ++ s ≡ ":" ∷ s
colon-append s = append.cons ":" [] s ∙ ap (λ (t : String). ":" ∷ t) (append.nil s)

label-append : (a s : String) → (a ++ ":") ++ s ≡ a ++ (":" ∷ s)
label-append a s = append_assoc a ":" s ∙ ap (λ (t : String). a ++ t) (colon-append s)

user_parts :
    (s : String) → "idempotency:user:" ++ s ≡ "idempotency" ++ (":" ∷ ("user" ++ (":" ∷ s)))
user_parts s =
    append_assoc "idempotency:" "user:" s
    ∙ label-append "idempotency" ("user:" ++ s)
    ∙ ap (λ (t : String). "idempotency" ++ (":" ∷ t)) (label-append "user" s)

anon_parts :
    (s : String) → "idempotency:anon:" ++ s ≡ "idempotency" ++ (":" ∷ ("anon" ++ (":" ∷ s)))
anon_parts s =
    append_assoc "idempotency:" "anon:" s
    ∙ label-append "idempotency" ("anon:" ++ s)
    ∙ ap (λ (t : String). "idempotency" ++ (":" ∷ t)) (label-append "anon" s)

-- Two keys that are equal have one scope, and the same text behind it.
same_scope :
    (a a' s s' : String)
    → is_free b':' a ≡ true
    → is_free b':' a' ≡ true
    → "idempotency" ++ (":" ∷ (a ++ (":" ∷ s))) ≡ "idempotency" ++ (":" ∷ (a' ++ (":" ∷ s')))
    → (a ≡ a') × (s ≡ s')
unfolding is_free every
same_scope a a' s s' h h' e =
    cut_unique b':' a a' ":" s s' h h' refl
      (cut_unique b':' "idempotency" "idempotency" ":" (a ++ (":" ∷ s)) (a' ++ (":" ∷ s')) refl refl
        refl e).1

scoped-injective :
    (o o' : Option ℤ) (raw raw' : String)
    → FitsId o
    → FitsId o'
    → scoped o raw ≡ scoped o' raw'
    → (o ≡ o') × (raw ≡ raw')
unfolding is_free every
scoped-injective (some a) (some b) raw raw' h h' e =
    let (_, rest) =
      same_scope "user" "user" (itoa a ++ (":" ++ raw)) (itoa b ++ (":" ++ raw')) refl refl
        (sym (user_parts (itoa a ++ (":" ++ raw))) ∙ e ∙ user_parts (itoa b ++ (":" ++ raw'))) in
    let (ids, raws) =
      cut_unique b':' (itoa a) (itoa b) ":" raw raw' (is_free-itoa b':' (ground arith) a)
        (is_free-itoa b':' (ground arith) b) refl
        (sym (ap (λ (t : String). itoa a ++ t) (colon-append raw))
          ∙ rest
          ∙ ap (λ (t : String). itoa b ++ t) (colon-append raw')) in
    (sym (parse_int-itoa a h) ∙ ap parse_int ids ∙ parse_int-itoa b h', raws)
scoped-injective (some a) none raw raw' h h' e = absurd (
    true≢false (
      ap (str_eq "user")
        (same_scope "user" "anon" (itoa a ++ (":" ++ raw)) raw' refl refl
          (sym (user_parts (itoa a ++ (":" ++ raw))) ∙ e ∙ anon_parts raw')).0))
scoped-injective none (some b) raw raw' h h' e = absurd (
    true≢false (
      ap (str_eq "anon")
        (same_scope "anon" "user" raw (itoa b ++ (":" ++ raw')) refl refl
          (sym (anon_parts raw) ∙ e ∙ user_parts (itoa b ++ (":" ++ raw')))).0))
scoped-injective none none raw raw' h h' e = (
  refl,
  (same_scope "anon" "anon" raw raw' refl refl (sym (anon_parts raw) ∙ e ∙ anon_parts raw')).1,
)

-- If two requests have one key in the store, they are of the same player, or both of none, and
-- their headers are equal; the ids of players fit in an int64.
pub idempotency_store_key-injective :
    (user user' : User) (raw raw' : String)
    → FitsId (player_id user)
    → FitsId (player_id user')
    → idempotency_store_key user raw ≡ idempotency_store_key user' raw'
    → (player_id user ≡ player_id user') × (raw ≡ raw')
unfolding idempotency_store_key
idempotency_store_key-injective user user' raw raw' h h' e =
    scoped-injective (player_id user) (player_id user') raw raw' h h' e
