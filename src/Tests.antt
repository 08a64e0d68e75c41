-- ===== src/Tests.antt =====
-- Runs on small data, and the theorems at concrete arguments.
mod Data
mod CleanupRuns
mod RuleRuns
mod ScanRuns
mod StoreRuns
mod BotRuns
mod ChatRuns
mod CommandRuns
mod ContextRuns
mod CliRuns
