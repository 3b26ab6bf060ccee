-- ===== src/Cmd/Returns.antt =====
-- cmd/server/main.go: the server comes to its return, and what it leaves then.
use keep_it_up.Idempotency.Valkey.{Valkey}
use keep_it_up.Http.Adapter.{Adapter}
