-- ===== src/Tests/Idempotency.antt =====
-- Requests with idempotency keys at the small server.
use keep_it_up.Prelude.{ℕ, ◌≤◌, pos, none, List, [], ◌∷◌, String, ok, err, ◌≡◌, refl, arith}
use keep_it_up.Number.{itoa, decimal, parse_int, digits}
use keep_it_up.Text.Cut.{cut}
use keep_it_up.Text.{byte_len, every}
use keep_it_up.Db.{empty_db}
use keep_it_up.Http.{Response, player_id, no_content}
use keep_it_up.Http.Serve.{Next}
use keep_it_up.Idempotency.{valid_idempotency_key, idempotency_store_key, idempotency}
use keep_it_up.Idempotency.Contract.{IsIdempotencyStore}
use keep_it_up.Idempotency.Valkey.{valkey_store, record_value, parse_record}
use keep_it_up.Idempotency.Valkey.Contract.{held_by, valkey_store-IsIdempotencyStore}
use keep_it_up.Idempotency.Keys.{idempotency_store_key-injective}
use keep_it_up.Idempotency.Replay.{HasKey, idempotency-replays}
use keep_it_up.Idempotency.Steps.{Flight, arrived, World, fly}
use keep_it_up.Idempotency.Once.{runs, fly-once}
use keep_it_up.Tests.Server.{
  Pairs, holds, server, base64, server-IsValkey, base64-IsBase64, adapter, idempotent, ana,
  save_request,
}
use keep_it_up.Tests.Commands.{playing_db}

valkey_store-IsIdempotencyStore_example :
    IsIdempotencyStore (valkey_store server base64) (held_by base64 holds)
valkey_store-IsIdempotencyStore_example =
    valkey_store-IsIdempotencyStore server base64 holds server-IsValkey base64-IsBase64

abbrev key_text : String
key_text = "k-1"

idempotency_store_key-injective_example : (player_id ana ≡ player_id ana) × (key_text ≡ key_text)
idempotency_store_key-injective_example =
    idempotency_store_key-injective ana ana key_text key_text (ground arith) (ground arith) refl

-- Two copies of one save.
abbrev save_flight : Flight
save_flight = record {
  user = ana;
  request = save_request;
  handler = λ db. (no_content (pos 204), db);
  phase = arrived;
}

abbrev start : World Pairs
start = record { store = []; db = playing_db; ran = [] }

abbrev flights : List Flight
flights = save_flight ∷ save_flight ∷ []

abbrev schedule : List ℕ
schedule = 0 ∷ 1 ∷ 1 ∷ 0 ∷ 0 ∷ 1 ∷ []

abbrev pub save_key : String
save_key = "idempotency:user:3:k-1"

fly-once_example : runs save_key (fly adapter idempotent schedule flights start).1.ran ≤ 1
fly-once_example =
    fly-once adapter idempotent (held_by base64 holds)
      (valkey_store-IsIdempotencyStore server base64 holds server-IsValkey base64-IsBase64) save_key
      schedule flights start (refl, (refl, tt)) refl

abbrev saved : Response
saved = record { status = pos 204; body = ""; cookie = none }

abbrev saves : Next Pairs
saves (s, db) = (ok saved, s, db)

abbrev refuses : Next Pairs
refuses (s, db) = (err "not reached", s, db)

abbrev in_progress_pairs : Pairs
in_progress_pairs = (save_key, "IN_PROGRESS") ∷ []

abbrev saved_pairs : Pairs
saved_pairs = (save_key, "COMPLETED|204|") ∷ (save_key, "IN_PROGRESS") ∷ []

pub has_key : HasKey idempotent ana save_request save_key
unfolding valid_idempotency_key idempotency_store_key byte_len every itoa decimal
has_key = (refl, refl, refl)

idempotency-replays_example :
    ((idempotency adapter idempotent ana save_request saves ([], playing_db)).0 ≡ ok saved)
    × (idempotency adapter idempotent ana save_request refuses (saved_pairs, empty_db)
        ≡ (ok saved, saved_pairs, empty_db))
unfolding idempotency idempotency_store_key valid_idempotency_key byte_len every itoa decimal
    valkey_store record_value parse_record cut parse_int digits
idempotency-replays_example =
    idempotency-replays adapter idempotent (held_by base64 holds)
      (valkey_store-IsIdempotencyStore server base64 holds server-IsValkey base64-IsBase64) ana ana
      save_request save_request saves refuses [] in_progress_pairs saved_pairs playing_db playing_db
      empty_db save_key saved has_key has_key refl refl (ground arith) (ground arith) refl refl
      (λ e broke. ground (arith, broke)) (λ e broke. ground (arith, broke))
