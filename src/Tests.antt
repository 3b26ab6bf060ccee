-- ===== src/Tests.antt =====
-- Runs of the definitions on concrete data, and each property applied to such data.
mod Engine
mod Games
mod Commands
mod Players
mod Histories
mod Server
mod Http
mod Idempotency
mod Logins
mod Cmd
mod Statuses
