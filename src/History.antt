-- ===== src/History.antt =====
-- The interactions that the commands write, against the replay that reads them: the trigger
-- (database/migrations), internal/application/usecase/game_commands.go and `GetSharedData`.
pub mod Rows
pub mod Extend
pub mod Run
pub mod Commands
pub mod Others
pub mod Answers
pub mod Effects
pub mod Readers
