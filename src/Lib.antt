-- ===== src/Lib.antt =====
-- The TalkIntent hub, internal/hub with internal/store and internal/feishu, and the probe behind a
-- daemon, internal/probe: the server between the askers and the daemons, the event-sourced store
-- behind it, and the codec, the reassembly of fragments and the deduplication of the long
-- connection to Feishu.
--
-- The store (internal/store/store.go) keeps maps in memory and writes each change to events.jsonl.
-- Store.State is the maps of jsonlStore, Store.Journal the object with its file and
-- appendEventLocked, Store.Event the events and applyEvent. The methods are grouped as in the
-- source: Store.Pairing has HashToken, CreateInvite, ConsumeInvite, GetMember and GetMemberByToken;
-- Store.Members the member directory and the bot bindings; Store.Queries CreateQuery, GetQuery,
-- GetQueuePosition and UpdateQueryStatus; Store.Queue requeueing, the sweep, the queue of a member
-- and the idempotency keys; Store.Audit the audit trails; Store.Resolve ResolveTargetMember;
-- Store.Compact Compact, for which the nonces of the bindings and what the file system does are
-- arguments; Store.Recovery replayAndOpenFile, over the bytes of the file, where what a line says
-- is an argument. A method is a state-passing function with a result or an error, and what was
-- written before an error stays written. A write of the file may be refused: the store carries the
-- list of what the next writes will do. The clock and the random draws are arguments.
--
-- Store.Durable, Store.Invites, Store.Rounds, Store.Positions and Store.Pages hold the proofs, each
-- named for its subject; Store.Records has the records of internal/protocol.
--
-- The server is HubServer of internal/hub/hub.go. Hub.State is its state: the maps of the server
-- hold pointers to sessions, here the ids of sessions, and heap has the session of each id; a frame
-- that is written to a connection is added to a list, and so is what a waiter's channel is given.
-- Hub.Records has the messages of internal/protocol/ws.go. Hub.Sessions is the registration in
-- handleWebSocket with its takeover, the clean-up that it defers, and selectSessionForQuery;
-- Hub.Waiters the waiters and the timeouts of queries; Hub.Dispatch drainOfflineQueue and
-- cancelDispatchedQuery; Hub.Frames handleDaemonEnvelope and the read loop; Hub.Limiter
-- internal/hub/ratelimit.go; Hub.Access the authentication and the answers of the handlers;
-- Hub.Submit handleQuerySubmit; Hub.Detail handleQueryDetail; Hub.Handlers the handlers of pairing,
-- members and audit trails; Hub.Feishu dispatchFeishuQuery; Hub.Bindings the handlers of bot
-- bindings, with the clients that run as a list. The hub calls the methods of the store, and a
-- result that Go drops is dropped here. A handler is one step on the state with one reading of the
-- clock; a handler that waits ends where it begins to wait, and what ends the wait is a step of its
-- own. Goroutines interleave between the steps; Hub.Frames.Race takes one handler apart. The
-- decoding of JSON and the reading of a URL are not modelled: a step starts from the decoded
-- values. The limiter counts tokens in grains of which each float64 is a whole number; the rounded
-- sum of a refill is the record Floats, and the proofs rely on how far it may be off, IsClose.
--
-- The agent on the daemon's side is internal/probe: Probe.Text is the redaction and the truncation
-- of texts, Probe.Chat the turns of the model, Probe.Run is Run of probe.go, and Probe.Sandbox the
-- paths of tools/tool.go. The model, the tools and the deadline are the record World; the loop is a
-- recursion on the steps that are left. The climb of resolvePhysicalPath to a parent runs on fuel,
-- and the depth of the path and one more is enough. The system prompt, which is the same in each
-- call, is left out. Config.Workspaces is internal/config/workspace.go, and Config.Validation
-- internal/config/validate.go, without the remedies of its errors; a temperature is known by
-- whether it is out of its bounds.
--
-- The tools are internal/probe/tools/builtin.go: Probe.Tools has their arguments,
-- Probe.Tools.Sensitive checkDiffLineSensitive, Probe.Tools.Diff filterDiffOutput, Probe.Tools.Git
-- the three tools that run git, Probe.Tools.Walk filepath.Walk over a tree of files,
-- Probe.Tools.Search grep_search, Probe.Tools.Listing recent_files and find_api_specs,
-- Probe.Tools.Reading read_file, and Probe.Tools.Directory list_dir, with the panic of
-- strings.Repeat as a result. A link stands in the tree as a file, and what is read of a path is
-- what os.Open opens. git, the file system and the formats of package fmt are parameters.
--
-- Feishu.Frame, Feishu.Codec, Feishu.Fragment and Feishu.Dedupe are internal/feishu/codec.go,
-- fragment.go and dedupe.go, with the proofs in the modules below them. A Go string is a list of
-- bytes there. The loop of Unmarshal runs on fuel, one round for each byte of the data, which is
-- enough for what Marshal writes since each field moves the offset forward; the result stuck says
-- that the fuel was not enough. A field that skipField passes over can move the offset back, and
-- then no fuel is enough.
--
-- The daemon is internal/daemon/daemon.go: Daemon.Dispatch is dispatchQuery and resolveWorkspace,
-- Daemon.State and Daemon.Serve are the ClientDaemon, the loop of connectAndServe and the
-- goroutines of handleQueryRequest, and Daemon.Retry is the loop of Start. What the select
-- statements, the timers and the scheduler choose is a list of events, and an event that cannot
-- happen has no next state.
--
-- The standard library of Go that the store uses (texts, digests, encryption) is the record
-- Store.Library; where a proof relies on encryption being undone by decryption, that is the
-- hypothesis SealsBack. Maps are association lists, whose order stands for the order of range.
-- Locks are not modelled: each method holds the mutex of the store from its first line to its last,
-- so that methods do not interleave. The JSON text of a line of the log is not modelled. Not
-- modelled are the start and the stop of the server, its routes, the connection to Feishu, the
-- status files and the dialling of the daemon, listening_ports and the prompts of the probe, the
-- rest of the configuration and the command line.
--
-- Tests has concrete stores, hubs and messages to which the theorems are applied.
pub mod Common
pub mod Store
pub mod Feishu
pub mod Hub
pub mod Probe
pub mod Config
pub mod Daemon
pub mod Tests
