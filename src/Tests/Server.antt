-- ===== src/Tests/Server.antt =====
-- A small server: a Valkey that keeps a list of pairs, and tokens for one player.
use keep_it_up.Prelude.{
  pos, ◌*◌, Option, none, some, List, [], ◌∷◌, String, str_eq, eq_iff, if◌then◌else◌, Result, ok,
  err, ◌≡◌, ◌≢◌, refl, sym, arith, inl, inr, Bool-cases,
}
use keep_it_up.Time.{second}
use keep_it_up.Http.{Json, message, User, token, HttpRequest, HttpAdapter}
use keep_it_up.Http.Serve.{Verify}
use keep_it_up.Idempotency.{Idempotency}
use keep_it_up.Idempotency.Valkey.{ValkeyError, valkey_nil, Valkey, Base64, valkey_store}
use keep_it_up.Idempotency.Valkey.Records.{IsBase64}
use keep_it_up.Idempotency.Valkey.Contract.{Writes, IsValkey}

abbrev pub Pairs : Type 0
Pairs = List (String × String)

abbrev pub holds : Pairs → String → Option String
holds [] key = none
holds ((k, v) ∷ rest) key = if str_eq k key then some v else holds rest key

abbrev set_if_new : Pairs → String → String → Option String → Result ValkeyError Unit × Pairs
set_if_new s key value none = (ok tt, (key, value) ∷ s)
set_if_new s key value (some old) = (err valkey_nil, s)

abbrev got : Option String → Result ValkeyError String
got none = err valkey_nil
got (some v) = ok v

abbrev pub server : Valkey Pairs
server = record {
  set_nx_ex = λ s key value ttl. set_if_new s key value (holds s key);
  get = λ s key. got (holds s key);
  set_ex = λ s key value ttl. (ok tt, (key, value) ∷ s);
}

abbrev pub base64 : Base64
base64 = record { encode_to_string = λ s. s; decode_string = λ s. some s }

pub base64-IsBase64 : IsBase64 base64
base64-IsBase64 = record { decode-encode = λ s. refl }

added :
    (s : Pairs) (key value other : String)
    → other ≢ key
    → holds ((key, value) ∷ s) other ≡ holds s other
added s key value other ne = elim (Bool-cases (str_eq key other)) [
  | inl same ↦ absurd (ne (sym ((eq_iff key other).0 same)))
  | inr apart ↦ rw apart refl
]

found_again : (s : Pairs) (key value : String) → holds ((key, value) ∷ s) key ≡ some value
found_again s key value = rw ((eq_iff key key).1 refl) refl

written : (s : Pairs) (key value : String) → Writes holds s ((key, value) ∷ s) key value (ok tt)
written s key value = record {
  others = added s key value;
  written = λ e. found_again s key value;
  in_doubt = λ e broke. absurd (ground (arith, broke));
}

set_new :
    (s : Pairs) (key value : String) (o : Option String)
    → Writes holds s (set_if_new s key value o).1 key value (set_if_new s key value o).0
set_new s key value none = written s key value
set_new s key value (some old) = record {
  others = λ other ne. refl;
  written = λ e. absurd (ground (arith, e));
  in_doubt = λ e broke. absurd (ground (arith, broke));
}

set_only_new :
    (s : Pairs) (key value : String) (o : Option String)
    → (set_if_new s key value o).0 ≡ ok tt
    → o ≡ none
set_only_new s key value none e = refl
set_only_new s key value (some old) e = absurd (ground (arith, e))

not_new :
    (s : Pairs) (key value : String) (o : Option String)
    → holds s key ≡ o
    → (set_if_new s key value o).0 ≡ err valkey_nil
    → (old : String) × (holds s key ≡ some old)
      × (holds (set_if_new s key value o).1 key ≡ some old)
not_new s key value none h e = absurd (ground (arith, e))
not_new s key value (some old) h e = (old, h, h)

got_value : (o : Option String) (value : String) → got o ≡ ok value → o ≡ some value
got_value none value e = absurd (ground (arith, e))
got_value (some v) value e = ground (arith, e)

got_nil : (o : Option String) → got o ≡ err valkey_nil → o ≡ none
got_nil none e = refl
got_nil (some v) e = absurd (ground (arith, e))

pub server-IsValkey : IsValkey server holds
server-IsValkey = record {
  set_nx_writes = λ s key value ttl. set_new s key value (holds s key);
  set_nx_new = λ s key value ttl e. set_only_new s key value (holds s key) e;
  set_nx_nil = λ s key value ttl e. not_new s key value (holds s key) refl e;
  get_value = λ s key value e. got_value (holds s key) value e;
  get_nil = λ s key e. got_nil (holds s key) e;
  set_writes = λ s key value ttl. written s key value;
  set_never_nil = λ s key value ttl e. ground (arith, e);
}

abbrev json_text : Json → String
json_text (message text) = text
json_text _ = "{}"

abbrev pub adapter : HttpAdapter
adapter = record {
  generate_token = λ p. ok "t";
  tp = some (ok (pos (2 * second)));
  session_lifetime = pos (60 * second);
  default_interactions_limit = pos 20;
  encode = λ j. ok (json_text j);
}

abbrev pub idempotent : Idempotency Pairs
idempotent = record {
  store = valkey_store server base64;
  ttl = pos second;
  header = "Idempotency-Key";
}

-- The player 3.
abbrev pub ana : User
ana = token (record { expires_at = none; user_id = pos 3; username = "ana" })

abbrev verified : Option String → Result String User
verified none = err "missing cookie"
verified (some s) = if str_eq s "ana" then ok ana else err "invalid token"

abbrev pub verify : Verify
verify = verified

abbrev param : String → String
param name = if str_eq name "gameId" then "7" else ""

-- A save of the game 7 for 60 seconds.
abbrev pub save_request : HttpRequest
save_request = record {
  query_param = param;
  header = λ name. "k-1";
  session = some "ana";
  login_body = err "no body";
  save_body = ok (pos 60);
}
