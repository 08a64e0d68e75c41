-- ===== src/Lib.antt =====
-- natsie finds JetStream consumers that nobody reads any more, proposes their deletion in a manifest,
-- and deletes them after an approval. The parts, and the files that model them:
--
-- * internal/protect (Protect): the rules for consumers that something else owns. `New` is
--   `Protect.new`, `Reason` is `reason`; path.Match of the Go library is Go/Path.
-- * internal/scanner (Scanner): `Classify` has `classify`, `peerStatus` and the thresholds, `Renames`
--   has `detectRenames`, `Scan` has `Scan`; `Peers`, `Owner`, `Streams` and `StreamReport` are the
--   files of those names. JetStream, which the source reads through jsm.go, is the record
--   `Scanner.Api.JetStream` of answers: a scan asks for each thing once.
-- * internal/manifest (Manifest) and internal/infra/store (Store): documents on a file system
--   (Go/Os). gopkg.in/yaml.v3 is the parameter `Yaml`; theorems on what is read back assume
--   `RoundTrips`, that it reads a document back as it was.
-- * internal/cleanup (Cleanup): `Apply` over a parameter `Server`, whose state may change in any way
--   with each request; a `Session` keeps the log of the requests. Go ranges over the map of the
--   clusters in any order, which is an argument.
-- * internal/owners (Owners): the routing of entries to teams.
-- * internal/audit (Audit) and internal/infra/httpsrv (Approve): the audit trail, and the routes and
--   approval handlers of the listener, with the webhook of slash commands (Approve/Router). The MAC of
--   the approval links is a parameter.
-- * internal/cmd/bot/serve.go (Bot): the check of the configuration, the manifests of the bot, of the
--   chat (internal/chatops/scan.go) and of the command line (internal/cmd/consumer/scan.go), the
--   messages (Bot/Messages), the sinks (Bot/Dispatch), the runs of the schedules (Bot/Run), the jobs
--   of all kinds (Bot/Jobs) with internal/infra/metrics (Metrics), and `serve` up to the start of the
--   clock (Bot/Serve) with internal/infra/scheduler (Scheduler).
-- * internal/infra/natsctx (Natsctx): the context files, and the connections that are dialed from them.
--   Dialing, JSON and the home folder are the parameter `Host`; a dial may read files, of which the
--   theorem on it assumes `ReadsCredentials`, that they are those of the option `UserCredentials`.
-- * internal/chatops (Chat): `Dispatch` is `Chat.dispatch`. Each command has a child: `Contexts`
--   (clusters), `Streams`, `Usage`, `Details` (cluster, consumers), `StreamDetail`, `LastMessage` and
--   `Scan`; `Render` has the tables and numbers of the replies, and `Api` what the commands ask for.
-- * internal/infra/mattermost/listener.go (Mattermost): the loop of `Run` over the ways in which its
--   sessions end, and a session (Mattermost/Sessions) over the signals that come, with the commands of
--   its posts. The clients of REST and of the WebSocket are the parameter `Client`.
-- * internal/infra/config/config.go (Config): `Load`. koanf is the parameter `Koanf`.
-- * internal/cmd/consumer, internal/cmd/peer and internal/cmd/stream (Cli): `Consumer` has the actions
--   of scan and apply, which write and delete; `Reports` has those of owner, check and report. An
--   action takes its flags as arguments and gives the rows, or the cells of the table, that it prints.
--
-- Base has the shared helpers, Go the parts of the Go library that the source uses, and Tests the runs
-- and the theorems at concrete data. What the listeners, the jobs and the commands change, they change
-- through `Cleanup.apply`, `Store.put` and `Manifest.write`.
--
-- Numbers: counters are natural numbers, as Go's int does not overflow at the sizes of these lists.
-- Times are nanoseconds since year 1, durations are signed and `time.Time.Sub` stops at 63 bits;
-- `num_pending` is a uint64 whose conversion to int64 wraps. Go/Float rounds a quotient to the 53 bits
-- of a float64 before it is printed; it looks at 128 binary digits, and no uint64 has more than 64. Every
-- loop is over a list or a text, but that of the decimal digits of `Go.Strings.itoa`, which are taken
-- with one more step than the number's value: a number has no more digits than that. Texts are read by
-- code points; Go's path.Match tries a star at every byte, which differs only where a star and question
-- marks meet characters of several bytes.
--
-- Not modelled: the parsing of flags and the drawing of the tables on a terminal, the dialing of NATS
-- and of chat servers, the clock of cron, the posts of notify, the registry of Prometheus, JSON, the
-- listeners and the shutdown of the server, the lock of the file store (an operation is one step) and
-- log lines. These are I/O, or calls of libraries.
pub mod Base
pub mod Go
pub mod Protect
pub mod Manifest
pub mod Store
pub mod Owners
pub mod Cleanup
pub mod Audit
pub mod Natsctx
pub mod Metrics
pub mod Approve
pub mod Scanner
pub mod Scheduler
pub mod Bot
pub mod Chat
pub mod Config
pub mod Cli
pub mod Mattermost
pub mod Tests
