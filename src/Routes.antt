-- ===== src/Routes.antt =====
-- Request handlers of web/server/src/routes/config.js and web/server/src/routes/dns.js over the
-- configuration files. The texts of error messages are left out: a refusal is its status.
pub mod Settings
pub mod Edit
pub mod Sync
pub mod System
pub mod Webhooks
pub mod Update
pub mod Upstreams
pub mod Dns
pub mod Blocklists
