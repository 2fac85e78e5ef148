-- ===== src/Lib.antt =====
-- Crystal Forge: a server that evaluates the flakes of a NixOS fleet, builders that build the
-- derivations and push them to a cache, and agents that deploy them. All of it is the Rust crate
-- under packages/default; its parts meet in tables of one PostgreSQL database.
--
-- The statements of the code are modelled as functions on tables, a table being the list of its
-- rows. A call gives the new table and its result; an error of a constraint leaves the table as it
-- was. Ids that a sequence hands out and the time of NOW() (milliseconds) are arguments. Statements
-- of a transaction are composed, and its rollback gives the old tables back. Errors of the
-- connection are not modelled. The duration that a status writes is kept to the 32 bits of its
-- column, and the retries of a push count on 32 and 64 bits; other numbers are naturals without a
-- bound, and the counters that the proofs bound stay far below 32 bits. Of the other constraints of
-- derivations the unique path is kept where a statement writes it.
--
-- Table: UPDATE, DELETE, SELECT and EXISTS on lists, with laws for rows and unique keys.
-- Derivation: packages/default/src/derivations/mod.rs and queries/derivations.rs. A row of the
--   table derivations, the inserts (Insert, its Outcome), update_derivation_status (Update,
--   UpdateLaws), the updates of single columns and the queueing (Queue), the reset at the server's
--   start (Reset).
-- CachePush: packages/default/src/queries/cache_push.rs, and cache_worker of builder/mod.rs. The
--   jobs with the CHECK and the unique index of migration 0052, the query for pending jobs
--   (Pending), the worker's round (Worker), the bound on attempts (Attempts, Keeps, Rounds).
-- Build: packages/default/src/queries/build_reservations.rs, and build_worker of builder/mod.rs.
--   Reservations and heartbeats, the claim (Claim, Claimed), the end of a build (Worker), the
--   cleanup (Recovery), and all of it interleaved as steps on the database (Traces). Leases is an
--   abstract machine that says who may hold a derivation. Commands and Running are
--   derivations/build.rs, the processes of one build and its second run without a scope.
-- CachePush.Retry: packages/default/src/derivations/cache.rs, push_to_cache_with_retry, on fuel that
--   is the number of attempts; Ending shows that it is enough.
-- Commits: packages/default/src/queries/commits.rs and process_pending_commits of server/mod.rs. When
--   a commit is evaluated and retried.
-- Systems: packages/default/src/models/systems.rs, queries/deployment.rs and deployment/mod.rs. The
--   policy of a system and the updater of desired targets; Deployable has the query for the newest
--   pushed build of each host and a pass over all flakes, Newest and Origin what its targets are
--   chosen from.
-- CveScans: packages/default/src/queries/cve_scans.rs. The life of a scan record; Rounds has the
--   scan loop as steps, Results save_scan_results with its five tables, Scanning the work of
--   scan_derivations of builder/mod.rs on one derivation.
-- Vulnix: packages/default/src/vulnix/vulnix_parser.rs. The counts of a report; the scores are a
--   parameter.
-- Agent: packages/default/src/deployment/agent.rs and bin/agent.rs. Shell has shell_quote and
--   shell_join over bytes; Deploy the deployment manager, its three attempts to copy and its unit;
--   Heartbeat the two loops of the program.
-- Evaluation: packages/default/src/derivations/utils.rs (Flake, the references),
--   models/deployment_policies.rs (Policy), models/evaluate_with_policies.rs and its call in
--   server/mod.rs (Jobs, one run of nix-eval-jobs on the lines that it prints; Tracking and Marking
--   follow a row to its closing UPDATE).
-- Reports: packages/default/src/models/system_states.rs, models/agent_heartbeats.rs,
--   queries/system_states.rs, and the handlers (Handlers) of handlers/agent_request.rs,
--   handlers/agent/heartbeat.rs and handlers/agent/state.rs.
-- Config: packages/default/src/config/build.rs (Build) and config/cache.rs (Cache).
-- Examples: concrete tables at which the theorems are used.
--
-- A finished build calls create_cache_push_job, which fills the table that the cache worker works
-- on; the steps of Build.Traces let these jobs change in any way.
-- `view_buildable_derivations` is not modelled: a claim may be given any row. What a build, a push
-- or the file system answers is an argument. Only the retries of a push and of a copy run on fuel,
-- which is the number of attempts left.
--
-- What lies outside is a record of functions: Host is what the deployment manager asks of its
-- system, BuildHost the processes of a build, Server the two endpoints that the agent posts to,
-- Wire the reading of a request and its signature, JsonValue a value of serde_json, Scores the
-- comparisons of CVSS scores. The lines that nix-eval-jobs prints, the answer of vulnix and the
-- rounds of a loop are arguments.
--
-- Left out: the processes of nix and git themselves, the reading of configuration files, the
-- cryptography, logs and metrics, and the queries that only list rows for a display.
pub mod Prelude
pub mod Table
pub mod Derivation
pub mod CachePush
pub mod Build
pub mod Agent
pub mod Commits
pub mod Systems
pub mod Vulnix
pub mod CveScans
pub mod Reports
pub mod Evaluation
pub mod Config
pub mod Examples
