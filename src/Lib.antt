-- ===== src/Lib.antt =====
-- beyond-ads-dns is a DNS resolver that blocks advertisements (Go, under internal/ and cmd/)
-- with a web application: a Node server (web/server/src) that reads and edits the resolver's
-- YAML configuration, and a React client (web/client/src). This library models the web
-- application.
--
-- The server keeps its state in two files, the defaults and the override, whose merge is the
-- configuration in force. A handler reads them, checks the request's body, edits the override
-- and writes it back; the resolver and the scheduler of the statistics read the same files at
-- any time.
--
-- Js: what the program uses of JavaScript. A text is its list of UTF-16 code units, where only
--   ASCII letters change case. A value is what YAML and JSON give; an object is its list of
--   entries in insertion order, a finite double is a whole number over a power of two.
--   Js/Convert has String(v) and its defaults, Js/Parse has parseInt.
-- Config: web/server/src/utils/config.js. Config/Merge has mergeDeep, getConfigDifferences and
--   arraysEqual; Config/Secrets has redactConfig, removePasswordFields and
--   removeInstanceSpecificDetails; Config/Store has readYamlFile, readOverrideConfig,
--   readMergedConfig and writeConfig; Config/Options has parseExclusionList,
--   normalizeErrorLogLevel, validateHealthCheck and normalizeHealthCheck. A disk maps a path to
--   the content of a file, or to nothing; a write gives the disks that a reader can meet one
--   after the other, and each operation of the file system may fail.
-- Normalize: normalizeDomains, normalizeSources and normalizeLocalRecords of the same file,
--   over the loop that the three share.
-- Schedule: validateScheduledPause, normalizeScheduledPause, validateFamilyTime and
--   normalizeFamilyTime of the same file, with the pattern of times (Schedule/Clock).
-- Scheduler: validateUsageStatsSchedule and normalizeUsageStatsSchedule of the same file, and
--   the decision of each tick of web/server/src/services/usageStatsScheduler.js;
--   `lastSentMinute` is passed from tick to tick, the clock is an argument.
-- Address: the tests of names, addresses and durations of web/client/src/utils/validation.js, with
--   the patterns of web/client/src/utils/constants.js. Address/Duration is the pattern of
--   durations as an automaton, Address/Duration/Grammar what it should match, Address/Upstream
--   the address of an upstream as the form of the client and the handler of the server test it.
-- Forms: validateScheduledPauseForm and validateFamilyTimeForm of the same file, the client's
--   side of Schedule; Forms/Tables has validateBlocklistForm, validateUpstreamsForm and
--   validateLocalRecordsForm, over the loop that the three share (Forms/Rows); Forms/Settings
--   validateReplicaSyncSettings, validateResponseForm and isValidListenAddress.
-- Denylist: web/client/src/utils/blocklist.js. The loop over the labels of a name has the
--   name's length as fuel, which is enough as each round drops a unit at least.
-- Routes: the handlers of the server. A reply is a value or the status of an error.
--   Routes/Settings has GET /api/config, GET /api/config/export and POST /api/config/import of
--   web/server/src/routes/config.js, and GET and PUT /api/dns/safe-search of
--   web/server/src/routes/dns.js; Routes/Dns and Routes/Upstreams the local records, the response
--   and the upstreams of the same file; Routes/Blocklists GET and PUT /api/blocklists of
--   web/server/src/routes/blocklists.js; Routes/Update what these share. Routes/Edit is the
--   shape of a handler that edits the override alone, and Routes/Sync those of
--   web/server/src/routes/sync.js: tokens, settings and role. Routes/Webhooks is
--   PUT /api/webhooks of web/server/src/routes/webhooks.js, with the targets that GET shows of a
--   merged hook. Routes/System is PUT /api/system/config of web/server/src/routes/config.js, a
--   list of sections that are applied one after the other, where `cache` has a module of its own (Routes/System/Cache, with
--   the edits of its refresh settings in Routes/System/Cache/Refresh).
-- Control: the handlers that pass a request on to the resolver's control server, of
--   web/server/src/routes/control.js, web/server/src/routes/blocklists.js and
--   web/server/src/routes/redis.js; Control/Retry the reload of the blocklists with its delays,
--   Control/Errors the restart, the list of errors and its level. A call is a value, and what
--   `fetch` gives is an argument.
-- Polling: web/client/src/utils/visibilityAwarePolling.js, as a relation of the steps that the
--   browser may take.
-- Queries: the filters of the list of queries, of web/server/src/services/clickhouse.js, with
--   clampNumber of web/server/src/utils/helpers.js and web/client/src/utils/queryParams.js;
--   Queries/Texts the texts of the list's and the export's queries, of
--   web/server/src/routes/queries.js.
-- Auth: web/server/src/auth.js, with the handlers of web/server/src/routes/auth.js and the test
--   of web/server/src/middleware/auth.js in Auth/Routes. The module's variables, the
--   environment and the password file are one state; a handler gives its reply and its calls on
--   the session.
-- Tests: runs at concrete inputs, and the theorems below applied to such inputs.
--
-- Parameters, as their code is not in the repository: the package yaml (a pair of functions
-- over a type of contents, where parsing reads back what was written), the file system's
-- failures, the engine of regular expressions, the package bcryptjs (hash and comparison, where
-- the comparison accepts what was hashed), the errors of the session store,
-- `Intl.DateTimeFormat`, `new URL` (as a test, or as the parts of what it reads), `net.isIP`, the
-- text of a number, `Number(v)` and `parseFloat`, the answers of `fetch`, random bytes and the
-- clock.
--
-- Not modelled: the resolver in Go; logout and the rate limits; the views GET
-- /api/system/config and GET /api/sync/status; the test messages of webhooks; the statistics and certificates; the
-- queries to ClickHouse and Redis themselves; the client's other forms, its pages and hooks,
-- which are React code around these functions; the overrides from the environment. Object keys
-- that JavaScript reorders (decimal numerals), negative zero, NaN inside a configuration,
-- rounding of integers past 2^53, and two requests that write at the same time.
pub mod Prelude
pub mod Js
pub mod Config
pub mod Normalize
pub mod Denylist
pub mod Schedule
pub mod Address
pub mod Forms
pub mod Scheduler
pub mod Routes
pub mod Control
pub mod Polling
pub mod Queries
pub mod Auth
pub mod Tests
