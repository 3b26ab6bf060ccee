-- ===== src/Idempotency/Transparent.antt =====
-- internal/infrastructure/driver/httpadapter/idempotency.go: the middleware runs a handler once and
-- answers what it answers, or not at all.
use keep_it_up.Prelude.{
  Option, none, some, Bool, true, false, ok, err, Result, ◌≡◌, refl, ◌⊎◌, inl, inr, Bool-cases,
  String,
}
use keep_it_up.Text.{is_empty}
use keep_it_up.Db.{Db}
use keep_it_up.Http.{HttpAdapter}
use keep_it_up.Http.Handlers.{Answer}
use keep_it_up.Http.Serve.{on_db}
use keep_it_up.Http.Access.{IsTransparent, without_store}
use keep_it_up.Idempotency.{
  idempotency_of, StoreError, Idempotency, valid_idempotency_key, idempotency_store_key,
  after_acquire, after_next, idempotency,
}

module _ {S : Type 0} (h : HttpAdapter) (i : Idempotency S) where
  after_next_answers :
      (key : String) (s : S) (a : Answer)
      → without_store (after_next h i key (let (x, db) = a in (x, s, db))) ≡ a
  after_next_answers key s (ok r, db) = refl
  after_next_answers key s (err e, db) = refl

  after_acquire_answers :
      (key : String) (handler : Db → Answer) (db : Db) (r : Result StoreError Bool × S)
      → ((after_acquire h i key (on_db handler) db r).2 ≡ db)
        ⊎ (without_store (after_acquire h i key (on_db handler) db r) ≡ handler db)
  after_acquire_answers key handler db (err e, s) = inl refl
  after_acquire_answers key handler db (ok false, s) = inl refl
  after_acquire_answers key handler db (ok true, s) = inr (after_next_answers key s (handler db))

  pub idempotency-IsTransparent : IsTransparent (idempotency h i)
  unfolding idempotency
  idempotency-IsTransparent user r handler s db = elim (Bool-cases (is_empty (r.header i.header))) [
    | inl empty ↦ rw empty (inr refl)
    | inr given ↦ elim (Bool-cases (valid_idempotency_key (r.header i.header))) [
      | inl valid ↦
          rw (given, valid)
            (after_acquire_answers (idempotency_store_key user (r.header i.header)) handler db
              (i.store.acquire s (idempotency_store_key user (r.header i.header)) i.ttl))
      | inr invalid ↦ rw (given, invalid) (inl refl)
    ]
  ]

-- With a store or without.
pub idempotency_of-IsTransparent :
    {S : Type 0} (h : HttpAdapter) (o : Option (Idempotency S)) → IsTransparent (idempotency_of h o)
idempotency_of-IsTransparent h none user r handler s db = inr refl
idempotency_of-IsTransparent h (some i) user r handler s db =
    idempotency-IsTransparent h i user r handler s db
