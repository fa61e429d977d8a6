-- ===== src/Database.antt =====
-- The connection to PostgreSQL as pgx gives it: statements, transactions, lost connections.
-- A statement is a function of the tables that returns its rows and the new tables, or an error.
-- Every round trip may fail for a reason outside the program: `faults` says, in order, how the
-- coming round trips end, and a list that is used up means that they work.
mod Defs
pub mod Refine
pub mod Atomic
pub mod Table
unfoldable pub use Defs.*
pub mod Pool
pub mod Keeps
