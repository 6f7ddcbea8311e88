-- ===== src/Fsm.antt =====
-- The deal machines' engine: github.com/filecoin-project/go-statemachine/fsm as far as the markets
-- rely on it.
mod Tables
mod Runs
mod Moves
mod Ledger
pub use Tables.*
pub use Moves.*
pub use Ledger.{counted, Adds, AddsIfDone, run-Adds}
unfoldable pub use Ledger.{weighed}
pub use Runs.{settle}
unfoldable pub use Runs.{run}
