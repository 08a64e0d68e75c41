-- ===== src/Cli.antt =====
-- internal/cmd: the commands of the command line that are not the bot.
pub mod Api
pub mod Consumer
pub mod Reports
pub mod Gate
pub mod Effects
