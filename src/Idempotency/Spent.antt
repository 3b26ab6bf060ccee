-- ===== src/Idempotency/Spent.antt =====
-- internal/infrastructure/driver/httpadapter/idempotency.go: a key is spent on one change of the
-- database.
use keep_it_up.Prelude.{
  true, false, Bool, Bool-cases, String, Result, ok, err, ◌≡◌, ◌≢◌, refl, ◌⊎◌, inl, inr, eq_iff,
}
use keep_it_up.Text.{is_empty}
use keep_it_up.Db.{Db}
use keep_it_up.Http.{User, HttpRequest, HttpAdapter, Handled}
use keep_it_up.Http.Handlers.{Answer}
use keep_it_up.Http.Serve.{on_db}
use keep_it_up.Idempotency.{
  absent, StoreError, Idempotency, valid_idempotency_key, idempotency_store_key, after_next,
  after_acquire, idempotency,
}
use keep_it_up.Idempotency.Contract.{View, IsIdempotencyStore}
use keep_it_up.Idempotency.Held.{acquire_keeps, acquire_wins, complete_keeps}
use keep_it_up.Idempotency.Replay.{HasKey, with_key}

module _ {S : Type 0} (h : HttpAdapter) (i : Idempotency S) (held : View S)
    (laws : IsIdempotencyStore i.store held) (key : String) where
  abbrev pub IsSpent : S → Type 0
  IsSpent s = held s key ≢ ok absent

  after_next_keeps :
      (k : String) (s : S) (a : Answer)
      → IsSpent s
      → IsSpent (after_next h i k (let (x, db) = a in (x, s, db))).1
  after_next_keeps k s (ok r, db) there = complete_keeps h i held laws key s k r there
  after_next_keeps k s (err e, db) there = there

  -- A won key is spent, whatever the handler returns.
  after_acquire_keeps :
      (k : String) (f : Db → Answer) (s : S) (db : Db) (r : Result StoreError Bool × S)
      → i.store.acquire s k i.ttl ≡ r
      → IsSpent s
      → IsSpent (after_acquire h i k (on_db f) db r).1
  after_acquire_keeps k f s db (err e, s') same there =
      acquire_keeps h i held laws key s k (err e, s') same there
  after_acquire_keeps k f s db (ok false, s') same there =
      acquire_keeps h i held laws key s k (ok false, s') same there
  after_acquire_keeps k f s db (ok true, s') same there =
      after_next_keeps k s' (f db) (acquire_keeps h i held laws key s k (ok true, s') same there)

  -- A key that is spent stays so, whatever request comes.
  pub idempotency_keeps :
      (user : User) (r : HttpRequest) (f : Db → Answer) (s : S) (db : Db)
      → IsSpent s
      → IsSpent (idempotency h i user r (on_db f) (s, db)).1
  unfolding idempotency
  idempotency_keeps user r f s db there = elim (Bool-cases (is_empty (r.header i.header))) [
    | inl empty ↦ rw empty there
    | inr given ↦ elim (Bool-cases (valid_idempotency_key (r.header i.header))) [
      | inl valid ↦
          rw (given, valid)
            (after_acquire_keeps (idempotency_store_key user (r.header i.header)) f s db
              (i.store.acquire s (idempotency_store_key user (r.header i.header)) i.ttl) refl there)
      | inr invalid ↦ rw (given, invalid) there
    ]
  ]

  -- With its key spent, a request changes nothing; with it unspent, it spends it if it changes
  -- the database.
  abbrev pub Spends : S → Db → Handled × S × Db → Type 0
  Spends s db out = (IsSpent s → out.2 ≡ db) × ((out.2 ≡ db) ⊎ IsSpent out.1)

  after_acquire-Spends :
      (f : Db → Answer) (s : S) (db : Db) (r : Result StoreError Bool × S)
      → i.store.acquire s key i.ttl ≡ r
      → Spends s db (after_acquire h i key (on_db f) db r)
  after_acquire-Spends f s db (err e, s') same = (λ there. refl, inl refl)
  after_acquire-Spends f s db (ok false, s') same = (λ there. refl, inl refl)
  after_acquire-Spends f s db (ok true, s') same =
      let (was, is) = acquire_wins h i held laws key s s' key same ((eq_iff key key).1 refl) in
      (λ there. absurd (there was), inr (after_next_keeps key s' (f db) is))

  pub idempotency-Spends :
      (user : User) (r : HttpRequest) (f : Db → Answer) (s : S) (db : Db)
      → HasKey i user r key
      → Spends s db (idempotency h i user r (on_db f) (s, db))
  idempotency-Spends user r f s db mine =
      rw (with_key h i held laws user r key (on_db f) s db mine)
        (after_acquire-Spends f s db (i.store.acquire s key i.ttl) refl)
