-- ===== src/Lib.antt =====
-- motzworks: a model of the network inventory scanner, with proofs about it.
--
-- A scan (internal/scan/engine.go) expands CIDRs, ranges and addresses (internal/discovery), probes
-- TCP ports, classifies each live host by its ports (internal/fingerprint), and runs the host jobs on
-- a bounded pool (internal/worker). A job asks the registry (internal/collector) for the collectors
-- of the host's class, takes the first result, and stores it (internal/store), which finds the device
-- again by its identity keys, records changes and replaces its child rows. Scans are started by the
-- command line (cmd/motzworks/scan.go), by the scheduler (internal/scheduler) and by the dashboard's
-- HTTP API (internal/api), which reads the inventory, keeps targets, schedules and sealed credentials,
-- and writes an audit log. Around them stand the configuration, the vault of the credentials, the
-- session tokens, and the migrations of the database.
--
-- Files
--   Prelude, Text, Addr   numbers, lists and tests; Go's strings and netip as the code uses them
--   Discovery             internal/discovery/discovery.go: Expand and parseRange (Expand), the sweep
--                         (Probe); Reference and Cover say what Expand returns, Ranges treats two
--                         special ranges, Sweep says what a sweep reports
--   Worker                internal/worker/pool.go: Run as a step relation; its invariant (Results)
--                         and its termination (Progress)
--   Model, Collector      internal/model/model.go, internal/collector/collector.go; Registered is
--                         cmd/motzworks/collectors.go with the collectors' Name and Supports
--   Fingerprint           internal/fingerprint/fingerprint.go
--   Store                 internal/store/devices.go and null.go: the tables (Db), diffDevice (Diff),
--                         resolveDevice (Resolve), UpsertDevice, replaceChildren and
--                         CreateRelationship (Upsert); Runs, Rows, Stored, Settled, Found and Rescan
--                         follow a whole call, Shallow a call that collected nothing, Relations the
--                         links
--   Scan                  internal/scan/engine.go: mergeHosts and mergeDevice (Merge), processHost,
--                         recordEvent and the summary (Process), what a host's scan gives (Outcome)
--                         internal/scan/credentials.go (Credentials; Sealed on sealed ones)
--   Store.Targets         internal/store/targets.go: targets, credentials, schedules
--   Store.Accounts        internal/store/users.go and audit.go
--   Store.Queries         internal/store/queries.go: ListDevices and GetDevice (Devices, Detail), the
--                         other lists (Lists), what the queries' texts and limits depend on (Shape),
--                         GetDevice over the tables (Tables), what its rows read as (Shown),
--                         what it shows of a stored device (Readback), and Stats (Stats;
--                         Counted has its numbers over the tables)
--   Store.Migrate         internal/store/migrate.go; a run (Recorded), and one that
--                         finishes and a second one (Again)
--   Scheduler             internal/scheduler/scheduler.go: one tick, what it scans (Tick) and what
--                         rests after it (Rests)
--   Ssh                   internal/collector/ssh: parse.go (Parse), ssh.go and profile.go (Collect),
--                         what the parsers read (Software, Users)
--   Snmp                  internal/collector/snmp/snmp.go (Values, Tables, Collect); the order of
--                         its maps (Rows), the interfaces of an agent (Ports), addresses (Mac) and
--                         systems (Family)
--   Api                   internal/api: what the handlers share (Site), handlers_admin.go (Admin; its
--                         Secrets on the secret of a credential), handlers_read.go (Read), sessions
--                         (Login, Login.Session) and the routes (Serve) with who may change what
--                         (Gate, Logged, Guarded) from server.go
--   Cli                   cmd/motzworks/scan.go: the ports (Ports) and the credentials (Picked) of the
--                         flags; main.go and commands.go (Commands), user.go (Account; its Login on
--                         the accounts it makes), serve.go (Serve; Ready on a started server)
--   Scan.Engine           Run of internal/scan/engine.go with internal/store/scanrun.go; its row
--                         (Recorded) and its hosts (Hosts). The jobs stand one after another here;
--                         Worker has the pool that interleaves them
--   Windows               internal/collector/winrm/parse.go (Winrm) and internal/collector/wmi/parse.go
--                         (Wmi); where the two agree (Agree); Collect of winrm.go and wmi.go
--                         (Collect); the spellings of an account (Account)
--   Web                   the collectors over HTTP: internal/collector/proxmox, opnsense, fortigate
--                         and fritzbox; Quiet has a host that none of them claims, Moved a FRITZ!Box
--                         at another address
--   Config, Auth, Vault   internal/config/config.go, internal/auth/auth.go, internal/vault/vault.go
--   Tests                 and the Tests beside each part: examples
--
-- Correspondence. A function keeps its name in snake case; a method takes its receiver as its first
-- argument. Go's `(value, error)` is a data type with `ok` and `err`. A text is the list of its code
-- points. What a database, a socket, a parser of addresses or a cipher answers is a parameter, with
-- the laws the code relies on as a record (NetipLaws, CryptoLaws, BoxLaws, Answers, NewIds). So are
-- the order that ORDER BY gives (Orders, View), the row that LIMIT 1 takes, and host(). A transaction
-- is a function of the tables that hands over new ones or an error; after an error the old tables
-- stay, as after Rollback.
--
-- Fuel. The two loops of Expand over addresses take fuel. A prefix or a range has at most 2 ^ 128
-- addresses, so fuel above 2 ^ 128 is enough wherever the loops end at all.
--
-- Not modelled: what the database makes of the text of a query and the pgx driver, log lines, the raw
-- payload of a result, timers and the rate limiter (they only delay), the encodings of JSON, XML and
-- CSV, the text of the metrics, the network protocols of the collectors, the parsing of flags, and the
-- signal handler and shutdown of the server.
pub mod Api
pub mod Prelude
pub mod Text
pub mod Addr
pub mod Discovery
pub mod Worker
pub mod Model
pub mod Collector
pub mod Fingerprint
pub mod Store
pub mod Config
pub mod Auth
pub mod Vault
pub mod Scan
pub mod Tests
pub mod Ssh
pub mod Snmp
pub mod Cli
pub mod Windows
pub mod Web
pub mod Scheduler
