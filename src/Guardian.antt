-- ===== src/Guardian.antt =====
-- core/rust/src/guardian.rs: the rules for connections and statements.
pub mod Token
pub mod Time
pub mod Rules
pub mod Query
mod Tests
