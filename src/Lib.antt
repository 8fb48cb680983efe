-- ===== src/Lib.antt =====
-- rail2ban reads log lines, counts failures per host, and bans a host with configured commands. This
-- development models the engine of a jail with its managers and its database, the server that owns the
-- jails and the commands of its clients, the configuration that it starts them with, and the sessions
-- and the requests of the web interface.
--
-- The parts. A log line goes through the filter (src/filter/mod.rs) into `Jail::process_line`
-- (src/server/jail.rs). A match counts as a failure in the failure manager
-- (src/server/failmanager.rs); a reported ticket passes ignoreself, ignoreip and ignorecommand, and a
-- ban is then made in the ban manager (src/server/banmanager.rs), in the SQLite tables
-- (src/server/database.rs) and by the commands of the actions (src/action/mod.rs). Commands of a client
-- ban, unban, flush, report an attempt or restore a ban; a tick every 30 seconds lifts the bans that
-- have run out.
--
-- The files:
--   Prelude: tests, lists, text as code points, signed integers, association lists.
--   Clock: `DateTime<Utc>` and `chrono::Duration` as signed nanoseconds, and the integer casts.
--   Error: src/error.rs. Time: `TimeValue` of src/time.rs; Fuel and Digits. Ip: src/ip.rs.
--   Filter: `CompiledFilter::process_line`, `process_buffered` and `LineBuffer`, Tags
--     (src/filter/tags.rs) and DatePattern (`compile` of src/filter/datepattern.rs); Buffer, Matching,
--     Patterns and Fails.
--   FailManager: `FailManager`; Laws, Window and Permanent prove what it does.
--   BanManager: `BanManager`; Expiry and View.
--   Database: the tables `bans` and `bips` and the statements on them; Rows, Current, History, Purge,
--     Listed, Joined.
--   Action: `Action`, `ActionExecutor`, `expand_command`, `lookup_tag`; `ActionConfig` of
--     src/config/action.rs; Expand.
--   IgnoreCache: the cache in src/server/jail.rs; Bound.
--   Jail: the rest of src/server/jail.rs. State (`Jail`, and `JailConfig` of src/config/jail.rs),
--     Bantime, Ignore, Ban, Line, Manual, Purge and Task follow its functions; Times, Whitelist,
--     Tracked, KeepsLine, Keeps, OnDemand and Bans prove what they do.
--   Json: the values of serde_json.
--   Config: src/config. Ini (parser.rs), Interpolate (interpolator.rs), Specs (the specs of filters and
--     actions, in jail.rs and loader.rs), Definitions (`materialize` in filter.rs and action.rs) and
--     Loaded (`LoadedConfig`, and `CompiledFilter::compile` of src/filter/mod.rs) follow the source;
--     Merge, Depth, Enough and Agree.
--   Server: src/server/server.rs; `restore_bans_from_db` here, Jails (the table of jails) and Stats; and
--     Commands, src/server/commands.rs with `Response` of src/protocol.rs. Restore, Table, Requests,
--     Refused and Unban.
--   Web: src/web. Users, Tokens and Sessions (auth.rs), Limiter and Gate (middleware.rs, routes.rs) and
--     Handlers (handlers.rs) follow the source, Calls has runs of a manager; Access, Lockout, Accounts,
--     Windows, Nested, Cookies and Admission.
--   Tests: a small world with concrete regexes, addresses and commands, and runs of the model in it.
--
-- The modelling. A mutex-protected method is one step from a state to the next, and a handler of the
-- jail's task runs alone, since the task awaits it; the loop is a list of events. The clocks are read
-- into an `Instants` record for each event. A hash map is an association list with one entry a key, and
-- its order stands for the order of iteration. Machine integers wrap where the source casts (`as u32`,
-- `as i64`) or adds in a release build, and saturate where it saturates. An instant does not overflow:
-- the panics of chrono's arithmetic at the ends of its range are not modelled. A log message has no
-- effect. A failed command is a `false`, and a failed SQL statement is not modelled: every caller drops
-- its error.
--
-- The server. A handle of the table holds the state of its jail and the events that were sent to it and
-- are still to be received; a request is one step of the server, and one call of the web's manager or
-- of its limiter is one step, so that two requests at once are taken one after the other. The source
-- locks each statement on the accounts by itself, and releases the table of jails while a jail is
-- spawned; neither interleaving is modelled. To stop a jail takes it out of the table: what its task
-- still does then is `shut_down` of Jail.Task, on the state of the jail. The server and its jails share
-- one database; here a jail has the database as it was when the jail was made, and what it writes later
-- and what the server writes do not reach each other, so that no theorem on the server is about rows
-- that a jail has written.
--
-- Parameters. The regex and ipnet packages, the text of addresses, name resolution, shlex and the
-- running of processes, the recognition of dates, the JSON text of a ticket and
-- `DateTime::from_timestamp` are fields of `Outside` and of the records in it, and no hypothesis is made
-- of them. `Machine` adds `Regex::new` and the opening of a database; `Front` the loader of
-- the configuration and the texts of errors; `Hashing` is Argon2, of which one theorem assumes that a
-- hash that was made verifies its password; and `nest` is the nesting of axum's routers, of which one
-- theorem assumes that the prefix is stripped.
--
-- Fuel. The loop of `TimeValue::parse` (`walk`) has the length of its text, of which each round takes a
-- character, and one more; that of `interpolate_inner` has the length of its text, and its depth is the
-- source's own limit; that of `compile_tags` (`compile_from`) has the length of its text, of which
-- what a tag encloses is a part; that of `trim_start_matches` has the length of its text, of which each
-- round takes a prefix; `decimal` has its number and one more, which is divided by ten each round.
--
-- Not modelled: the sockets and the tasks of the server, the search for configuration files and
-- `JailConfig::from_section`, the conversion of dates, axum's table of routes,
-- the page of the web interface, the backends that read the logs, and the command-line programs.
pub mod Prelude
pub mod Clock
pub mod Error
pub mod Time
pub mod Ip
pub mod Filter
pub mod FailManager
pub mod BanManager
pub mod Database
pub mod Action
pub mod IgnoreCache
pub mod Jail
pub mod Server
pub mod Json
pub mod Config
pub mod Web
pub mod Tests
