-- ===== src/Normalize.antt =====
-- The `normalize…` functions of web/server/src/utils/config.js that clean lists of a request body.
pub mod Unique
pub mod Entries
