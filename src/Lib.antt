-- ===== src/Lib.antt =====
-- Verification of verkkokyyla, a desktop tool for network measurements and the monitoring of
-- routers and firewalls. The Rust side runs measurements as tasks and streams their events to
-- the window; a manager per feature holds the live tasks under a lock and writes rows to a
-- database.
--
-- Parts, files and their source (paths from the repository's root):
-- - Prelude: the shared types, and what the code uses of Rust's standard library: fixed-width
--   integers (Prelude/Machine), texts as lists of code points with the decimal parser and
--   printer (Prelude/Text), Result with `?` (Prelude/Results), maps as association lists
--   (Prelude/Assoc). Prelude/Effects is code that calls out.
-- - Mtu: the discovery of a path's MTU. Mtu/Types is src-tauri/src/mtu/types.rs; Mtu/Search is
--   the controller of src-tauri/src/mtu/search.rs, one function for each method, the phase an
--   inductive type; Mtu/Runtime is run_mtu, cancel_run and finish_run of
--   src-tauri/src/mtu/runtime.rs; Mtu/Rows is the conversion of results and probes to database
--   rows in runtime.rs and back in src-tauri/src/mtu/manager.rs; Mtu/Manager is the slot of that
--   file's manager: start, stop and clear_active, with the tasks that are still running. The run
--   loop calls the controller for the next probe, the engine for its outcome, and emits events,
--   rows and log lines, which the model lists in their order.
-- - Mikrotik: Mikrotik/Manager is the map of live sessions of src-tauri/src/mikrotik/manager.rs.
--   The lock makes each function one step; a start takes the lock twice with the connection in
--   between, so Mikrotik/Manager/Capacity runs its second half among any other calls.
--   Mikrotik/Logs is src-tauri/src/mikrotik/logs.rs: the ids and the cursor, the poll loop
--   run_inner, and in Mikrotik/Logs/Slots the slots of LogStreamManager. Mikrotik/Session is
--   run_mikrotik_session of src-tauri/src/mikrotik/runtime.rs: the poll loop, its writes and
--   statuses, and the release of the slot in Mikrotik/Manager's map. Mikrotik/Backup is
--   src-tauri/src/mikrotik/backup.rs: Backup/Flow is run_backup with the functions under it, and
--   Backup/World what it is given and calls, Flow/Steps the steps of its download; Backup/Library is delete_backup_record and
--   diff_backup_records, and Backup/Diff is diff_lines. The flow and the library are written in
--   the monad of Prelude/Effects, which lists the calls that leave the program with their answers;
--   the flow's name check is Backup/Filename. Mikrotik/Error is src-tauri/src/mikrotik/error.rs,
--   and Mikrotik/Version src-tauri/src/mikrotik/version.rs: the results and their states, and in
--   Version/Probe the probes and the delivery of what they find.
-- - Opnsense: Opnsense/Activity is the registry of live monitors, log streams and terminals of
--   src-tauri/src/opnsense/manager.rs. Opnsense/Terminal is src-tauri/src/opnsense/terminal.rs:
--   connect is connect_terminal up to the shell, in a monad of what leaves the application;
--   Terminal/Slots is the table of terminals, and Terminal/Slots/Steps the steps under its lock
--   and the registry's, with the tasks under way. Opnsense/Logs is the parser SseParser and
--   event_from_object of src-tauri/src/opnsense/logs.rs; Logs/Reader is read_loop and run_reader,
--   which use the parser, the registry and the slots. Opnsense/Monitor is the slots of monitors of
--   src-tauri/src/opnsense/monitor.rs, and Monitor/Steps the steps of its calls and tasks.
--   Opnsense/Backup is src-tauri/src/opnsense/backup.rs: the file itself has encrypt_to_file,
--   Backup/Checks the checks and the order of the revisions, and Backup/Run api_for and backup.
-- - Ping: a ping session. Ping/Stats is src-tauri/src/stats.rs, Ping/Loop is run_probe_loop of
--   src-tauri/src/engine/mod.rs, Ping/Consumer is map_probe, consume_probes and flush_batch of
--   src-tauri/src/session.rs, and Ping/Manager its engine selection, start, stop and queries. The
--   loop sends its probes to the consumer, which feeds the statistics and stores rows in batches;
--   a stop joins both and reads the statistics: Ping/Manager/CleanStop is about the three.
-- - Scan: Scan/Cidr is src-tauri/src/scan/cidr.rs.
-- - Dns: Dns/Error is src-tauri/src/dns/error.rs; Dns/Scheduler is the benchmark's
--   src-tauri/src/dns/bench/scheduler.rs: the loop that keeps a bounded number of queries in
--   flight and the latest samples in a ring.
-- - Trace: Trace/Runtime is src-tauri/src/trace/runtime.rs: run_trace with the lookups that
--   share its state. A hop takes the lock twice; the lookups that end between the two and after
--   it are lists.
-- - Backup: Backup/Filename is src-tauri/src/backup_filename.rs.
-- - Tests: runs at concrete inputs, and each theorem at an input that meets its hypotheses.
--
-- Bounds and fuel. A u32 or i64 is a natural number or an integer with the code's conversions,
-- saturations and tests written out; the u64 sequence counter wraps. `clamp` panics when its
-- bounds are out of order, which a valid configuration excludes (IsValid). The run loop has
-- fuel, one unit for each turn; probe_limit turns are enough for the runs that end, by theorems
-- below, and one theorem is about a run for which no fuel is enough. The ping loop has fuel too,
-- one unit more than the probes before its stop. The scheduler's loop needs one turn more than
-- it has queries. The wait for a router's file has
-- one turn more than its timeout has intervals: 31 for the default poll. The walk through the
-- table of a difference has one turn more than there are lines. Everything else is structural
-- recursion.
--
-- Parameters. The probe engine, the moments of a stop, the success of a database write and the
-- clock (Mtu/Runtime), what the resolver, the engine's constructor and the database answer
-- (Mtu/Manager), the database's choice of a row id (Mikrotik/Manager/Identity), the queries, the
-- clock and the cancellation of a benchmark (Dns/Scheduler), the tracer's hops, the lookups and
-- the texts of addresses (Trace/Runtime), the parser of an IPv4 address (Scan/Cidr), the
-- operations on f64 (Ping/Stats), the engines, the sink and the stop of a ping (Ping/Loop,
-- Ping/Manager), what the SSH server and the database answer (Opnsense/Terminal), the router's
-- answers (Mikrotik/Logs, Mikrotik/Version), the client, the SFTP session, the disk, the clock, the database and
-- the texts of the errors (Mikrotik/Backup), the same of a firewall with the encryptor, the XML
-- parser and Unicode's letters (Opnsense/Backup), what a tick makes of them (Mikrotik/Session), and the JSON library
-- (Opnsense/Logs) are not in the repository, are input and output, or are left open by the model:
-- they are arguments.
--
-- Not modelled: sockets, HTTP, the operating system's tools, SQL, the keyring, the commands that
-- forward to the managers, and the TypeScript window. The MTU engines, the tracer, the trace
-- manager, MikroTik and OPNsense but for the parts above, the other DNS tools and the bandwidth
-- and download features are not modelled either.
pub mod Prelude
pub mod Mtu
pub mod Mikrotik
pub mod Opnsense
pub mod Scan
pub mod Dns
pub mod Trace
pub mod Backup
pub mod Ping
pub mod Tests
