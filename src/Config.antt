-- ===== src/Config.antt =====
-- web/server/src/utils/config.js: loading, merging, comparing and cleaning the configuration.
pub mod Merge
pub mod Secrets
pub mod Store
pub mod Options
