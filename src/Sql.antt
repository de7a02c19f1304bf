-- ===== src/Sql.antt =====
-- parser: the syntax trees of SQL statements, and their semantic analysis.
pub mod Syntax
pub mod Parse
pub mod Grammar
pub mod Descent
pub mod Steps
pub mod Analyze
mod Tests
