-- ===== src/Utils.antt =====
-- utils.rs: its modules `ser` and `err`.
mod Tests
pub mod Ser
pub mod Err
