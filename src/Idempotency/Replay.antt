-- ===== src/Idempotency/Replay.antt =====
-- internal/infrastructure/driver/httpadapter/idempotency.go: a retry is answered with the response
-- of the first request.
use Prim.Native.String.{[], ◌∷◌}
use Prim.Native.String.append
use keep_it_up.Prelude.{
  ℤ, pos, Bool, true, false, none, Option, String, ◌==ℤ◌, ==ℤ_iff, Result, ok, err, ◌≡◌, ◌≢◌, refl,
  sym, ◌∙◌, ap, arith, Result-cases, inl, inr,
}
use keep_it_up.Number.RoundTrip.{FitsInt64}
use keep_it_up.Text.{is_empty}
use keep_it_up.Db.{Db}
use keep_it_up.Http.{User, HttpRequest, HttpAdapter, Cookie, Response, Handled}
use keep_it_up.Http.Serve.{Next}
use keep_it_up.Idempotency.{
  Found, absent, completed, StoreError, Idempotency, status_code, recorded, valid_idempotency_key,
  idempotency_store_key, found_before, replay_idempotent_response, complete_key, after_next,
  after_acquire, idempotency,
}
use keep_it_up.Idempotency.Contract.{View, IsIdempotencyStore}

not_zero : (n : ℤ) → n ≢ pos 0 → (n ==ℤ pos 0) ≡ false
not_zero n ne = ground (arith, ==ℤ_iff n (pos 0), ne)

recorded-status_of :
    (c : ℤ) (b : String) (k : Option Cookie)
    → c ≢ pos 0
    → status_code (recorded (record { status = c; body = b; cookie = k })) ≡ c
recorded-status_of c [] k ne = rw (not_zero c ne) refl
recorded-status_of c (x ∷ b) k ne = rw (not_zero c ne) (rw (not_zero c ne) refl)

recorded-buf_of :
    (c : ℤ) (b : String) (k : Option Cookie)
    → (recorded (record { status = c; body = b; cookie = k })).buf ≡ b
recorded-buf_of c [] k = refl
recorded-buf_of c (x ∷ b) k = append.nil (x ∷ b)

completed-ne-absent : (code : ℤ) (body : String) → completed code body ≢ absent
completed-ne-absent code body h = ground (arith, h)

abbrev held_of : Found → Result StoreError Found
held_of f = ok f

ok-injective : (f g : Found) → held_of f ≡ held_of g → f ≡ g
ok-injective f g e = ground (arith, e)

-- The request has a key, and its store key is `key`.
abbrev pub HasKey : {S : Type 0} → Idempotency S → User → HttpRequest → String → Type 0
HasKey i user r key =
    (is_empty (r.header i.header) ≡ false)
    × (valid_idempotency_key (r.header i.header) ≡ true)
    × (idempotency_store_key user (r.header i.header) ≡ key)

module _ {S : Type 0} (h : HttpAdapter) (i : Idempotency S) (held : View S)
    (laws : IsIdempotencyStore i.store held) where
  pub with_key :
      (user : User) (r : HttpRequest) (key : String) (next : Next S) (s : S) (db : Db)
      → HasKey i user r key
      → idempotency h i user r next (s, db)
        ≡ after_acquire h i key next db (i.store.acquire s key i.ttl)
  unfolding idempotency
  with_key user r key next s db (given, valid, same) =
      rw (given, valid)
        (ap (λ (k : String). after_acquire h i k next db (i.store.acquire s k i.ttl)) same)

  after_won :
      (key : String) (next : Next S) (db : Db) (r : Result StoreError Bool × S)
      → r.0 ≡ ok true
      → after_acquire h i key next db r ≡ after_next h i key (next (r.1, db))
  after_won key next db (ok true, s) won = refl
  after_won key next db (ok false, s) won = absurd (ground (arith, won))
  after_won key next db (err e, s) won = absurd (ground (arith, won))

  -- A request whose key is held loses it, and is answered with what is found.
  after_held :
      (key : String) (next : Next S) (db : Db) (s : S) (r : Result StoreError Bool × S) (f : Found)
      → i.store.acquire s key i.ttl ≡ r
      → held s key ≡ ok f
      → f ≢ absent
      → ((e : StoreError) → r.0 ≢ err e)
      → ((e : StoreError) → i.store.state r.1 key ≢ err e)
      → after_acquire h i key next db r ≡ (found_before h (ok f), r.1, db)
  after_held key next db s (err e, s') f same holds there runs reads = absurd (runs e refl)
  after_held key next db s (ok true, s') f same holds there runs reads = absurd (
      there (
        ok-injective f absent (
          sym holds
          ∙ (laws.acquire_won s key i.ttl (ap (λ (x : Result StoreError Bool × S). x.0) same)).0)))
  after_held key next db s (ok false, s') f same holds there runs reads =
      elim (Result-cases (i.store.state s' key)) [
        | inl (g, found) ↦
            let still : held s' key ≡ held s key =
              sym (ap (λ (x : Result StoreError Bool × S). held x.1 key) same)
              ∙ (laws.acquire_lost s key i.ttl
                  (ap (λ (x : Result StoreError Bool × S). x.0) same)).1 in
            ap
              (λ (x : Result StoreError Found).
                let y : Handled × S × Db = (found_before h x, s', db) in y)
              (found ∙ sym (laws.state_held s' key g found) ∙ still ∙ holds)
        | inr (e, broke) ↦ absurd (reads e broke)
      ]

  replayed :
      (code : ℤ) (body : String)
      → replay_idempotent_response code body
        ≡ ok (record { status = code; body = body; cookie = none })
  replayed code [] = refl
  replayed code (c ∷ body) = refl

  -- With a store that keeps its contract: of two requests with one store key, let the first win the key, its handler return a response,
  -- and the store record it. If the store then holds the same for the key when the second comes,
  -- and answers it without an error, the second is answered with the status and the body of the
  -- first response, without a cookie, whatever the two requests ask for, and the database is as it
  -- was before the second.
  pub idempotency-replays :
      (user user' : User) (r r' : HttpRequest) (next next' : Next S) (s s₁ s₂ : S) (db db₁ db₂ : Db)
      (key : String) (resp : Response)
      → HasKey i user r key
      → HasKey i user' r' key
      → (i.store.acquire s key i.ttl).0 ≡ ok true
      → next ((i.store.acquire s key i.ttl).1, db) ≡ (ok resp, s₁, db₁)
      → FitsInt64 resp.status
      → resp.status ≢ pos 0
      → (i.store.complete s₁ key resp.status resp.body i.ttl).0 ≡ ok tt
      → held s₂ key ≡ held (idempotency h i user r next (s, db)).1 key
      → ((e : StoreError) → (i.store.acquire s₂ key i.ttl).0 ≢ err e)
      → ((e : StoreError) → i.store.state (i.store.acquire s₂ key i.ttl).1 key ≢ err e)
      → ((idempotency h i user r next (s, db)).0 ≡ ok resp)
        × (idempotency h i user' r' next' (s₂, db₂)
            ≡ (ok (record resp { cookie = none }), (i.store.acquire s₂ key i.ttl).1, db₂))
  idempotency-replays user user' r r' next next' s s₁ s₂ db db₁ db₂ key resp mine yours won served
        fits ne stored same runs reads =
      let first : idempotency h i user r next (s, db)
          ≡ (ok resp, complete_key h i key s₁ resp, db₁) =
        with_key user r key next s db mine
        ∙ after_won key next db (i.store.acquire s key i.ttl) won
        ∙ ap (after_next h i key) served in
      let record_same : complete_key h i key s₁ resp
          ≡ (i.store.complete s₁ key resp.status resp.body i.ttl).1 =
        ap (λ (c : ℤ). (i.store.complete s₁ key c (recorded resp).buf i.ttl).1)
          (recorded-status_of resp.status resp.body resp.cookie ne)
        ∙ ap (λ (b : String). (i.store.complete s₁ key resp.status b i.ttl).1)
            (recorded-buf_of resp.status resp.body resp.cookie) in
      let holds : held s₂ key ≡ ok (completed resp.status resp.body) =
        same
        ∙ ap (λ (x : Handled × S × Db). held x.1 key) first
        ∙ ap (λ (t : S). held t key) record_same
        ∙ laws.complete_ok s₁ key resp.status resp.body i.ttl fits stored in
      (
        ap (λ (x : Handled × S × Db). x.0) first,
        with_key user' r' key next' s₂ db₂ yours
            ∙ after_held key next' db₂ s₂ (i.store.acquire s₂ key i.ttl)
                (completed resp.status resp.body) refl holds
                (completed-ne-absent resp.status resp.body) runs reads
            ∙ ap
                (λ (x : Handled).
                  let y : Handled × S × Db = (x, (i.store.acquire s₂ key i.ttl).1, db₂) in y)
                (replayed resp.status resp.body),
      )
