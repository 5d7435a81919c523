-- ===== src/Calls/Examples.antt =====
-- Concrete tables, and runs of the handlers on them.
pub mod Tables
pub mod Finalizes
pub mod Handlers
pub mod Repairs
pub mod Drops
