-- ===== src/Lib.antt =====
-- nomctl: the alerting of a Zenon node, from the rules on the node to the message in a chat, and the
-- commands that update the program and back up, restore and reset the node's data.
--
-- The alerting has two sides. On the node, the daemon (internal/alerts) takes a sample every thirty
-- seconds, evaluates its rules over half an hour of samples, and posts changes, reminders and a
-- heartbeat to the relay, each request signed (internal/alertproto). The relay (internal/relay) checks
-- the signature, keeps nodes, mutes and what was sent last in a store, and forwards alerts to a
-- Telegram chat, whose messages to the bot are its commands.
--
-- The commands act on one machine: files, systemd units and calls that can fail. An update replaces the
-- program (internal/update), a backup stops the node, copies its folders and writes an archive with a
-- hash file (internal/backup), a restore checks an archive and exchanges the folders (internal/restore),
-- a resynchronisation deletes them (internal/resync), and a hard reset deletes the orchestrator's state
-- (internal/orchestrator). All but the update stop and start a systemd unit (internal/service). The
-- node's configuration is one more file, edited key by key (internal/nodeconfig).
--
-- Files and code:
--   Prelude    shared names; texts as bytes, maps as association lists, decimal forms
--   Time       time.Time and time.Duration in nanoseconds from the zero time
--   AlertProto, AlertProto/Sign    internal/alertproto/proto.go: State, Severity, AlertRequest, Summary,
--              Alerts, Lookup, ValidAlert; Sign and Verify
--   Metrics    internal/metrics/sample.go: HumanBytes, HumanDuration, Commas
--   Host       the machine: the operations of package os that the commands use, systemctl, cp and mv;
--              Host/Keeps and Host/Leads reason about sequences of them, Host/Files, Host/Trees and
--              Host/Effects about each
--   Service    internal/service/service.go: Status, Exists, Start, Stop
--   Relay/Limiter     internal/relay/server.go: rateLimiter and allow
--   Relay/Store       internal/relay/store.go: the interface Store as a record of operations, and
--              Relay/Store/Memory, the memoryStore; Store/Laws says what the delivery relies on
--   Relay/Markdown    internal/relay/telegram.go: Escape, Code, Bold
--   Relay/Telegram    internal/relay/telegram.go: call, its retries, and Send
--   Relay/Server      internal/relay/server.go: notify, deliver, clearBlocked, CheckSilent
--   Relay/Http        internal/relay/server.go: clientIP, the ids and names, authed and the handlers
--   Relay/Commands    internal/relay/commands.go: HandleUpdate and the commands
--   Relay/Card        internal/relay/card.go: NodeCard and its numbers
--   Update/Version    internal/update/update.go: ParseVersion, Newer, SameCommit, ArchiveName
--   Update/Cache      internal/update/update.go: Run and Lines
--   Update/Disk       internal/update/update.go: copyFile, and the operations of package os that Replace
--              and Rollback call, on files that several names can share
--   Update/Install    internal/update/update.go: Fetch, Replace, Rollback
--   Backup            internal/backup/backup.go: List, SelectForPruning, Prune, copyData, clearDir
--   Backup/Archive    internal/backup/backup.go: writeArchive, ensureFreeSpace, Run
--   Backup/Schedule   internal/backup/backup.go: ScheduleTime, TimerUnit, ServiceUnit, ParseCadence
--   Resync            internal/resync/resync.go: Wipe and Run
--   Restore, Restore/Run    internal/restore/restore.go: Resolve, Verify, MoveAside, MoveBack, Run
--   Restore/Inspect   internal/restore/archive.go: Inspect, walk, entryPath
--   Orchestrator  internal/orchestrator/orchestrator.go: ValidateDir, HardReset
--   NodeConfig internal/nodeconfig/nodeconfig.go: Document with Get, Set, Unset, Keys; UnknownKeys
--   Alerts/Sample     internal/metrics/sample.go: what a sample holds
--   Alerts/Config     internal/alerts/config.go: thresholds, Load and Set
--   Alerts/Rules      internal/alerts/rules.go: the helpers on the history and every rule
--   Alerts/Daemon     internal/alerts/daemon.go: evaluate, Step, send, heartbeat, noteError, apply
--   Alerts/Summary    internal/alerts/daemon.go: Summarize
--   Alerts/Client     internal/alerts/client.go: the signed request of post and the reading of its answer
--   Tests      the theorems at concrete inputs
--
-- State is passed explicitly. The relay's handlers are functions from a server state to a response and a
-- state, over any store that is given as a record of operations; the source's locks make each
-- operation of the limiter and of the in-memory store one step. A handler or a step of the daemon reads
-- the clock several times in the source, and here once. Messages to Telegram and requests to the
-- relay are kept in lists of the state, newest first; what the other side answers is a parameter.
--
-- An action on the machine is a function from the machine to a result and a machine. The calls are
-- numbered; an arbitrary function says which of them fail, and another what a failed write leaves of its
-- destination, so that a theorem about all of them holds for a failure at every place. A directory is
-- one entry, whose content stands for the tree below it; a failed removal can leave a part of a
-- directory, a failed copy or move a part of its destination. That a move to another file system fails
-- after the copy, while it removes the source, is not modelled. The update makes hard links, so that it has
-- a disk of its own, where names lead to inodes and a write through one name is seen through the others;
-- elsewhere each name is a file of its own.
--
-- Parameters, since their code is not in the repository: HMAC-SHA256, JSON, base64, address parsing,
-- number and duration parsing, case mapping, float64 and the rendering of times; for the
-- commands the network, tar and gzip, path.Clean, SHA-256, the free space of a disk and git. The reading of
-- MarkdownV2 and of a quoted systemd setting is written from the documentation of Telegram and systemd.
--
-- Bounds and fuel: numbers are natural, and uint64 subtraction is written with its wrap where the code
-- relies on it (pillar counts). The decimal form runs on the number as fuel, the groups of Commas on the
-- number of digits, HumanBytes on six divisions, which bring any uint64 below 1024, and the retry loop
-- on the four attempts of the source.
--
-- Not modelled: log lines, the database store, the sampling of the host and of the node, permissions, and
-- the other commands that install and configure a node: internal/deploy, internal/bootstrap,
-- internal/producer, internal/walletbackup, internal/analytics, internal/support and internal/tui; of
-- internal/nodeconfig, the checks of values and the editor.
pub mod Prelude
pub mod Time
pub mod AlertProto
pub mod Metrics
pub mod Host
pub mod Service
pub mod Relay
pub mod Update
pub mod Backup
pub mod Resync
pub mod Restore
pub mod Orchestrator
pub mod NodeConfig
pub mod Alerts
pub mod Tests
