-- ===== src/Lib.antt =====
-- snowdeploy: a daemon that deploys container images by digest. A click opens a pull request on a
-- configuration repository, waits for its checks, merges it, renders the service's unit from the
-- merged manifest, writes and restarts it, probes it, and on failure restores the unit and reverts
-- main. A journal keeps one receipt for each run.
--
-- The parts, by the file that models them (paths from the repository's root):
--
--   * Effect: what the engine asks of its dependencies (the interfaces of internal/deploy/engine.go)
--     and of its own locks and maps is a `Call`; a program is a tree of calls, each with a
--     continuation on its `Answer`. Effect/Run executes one in a `World`, which answers every call
--     from a state of its own and may fail any call that can fail; the result carries the trace of
--     the calls. Effect/Logic is the logic of such programs: a protocol says which call is allowed
--     when, and `Wp` is the weakest precondition.
--   * Deploy: internal/deploy/engine.go. Start has start with Deploy, Rollback and Converge; Run has
--     run, split where the code returns early, one definition for each continuation; Merge has
--     mergeThroughChecks, Apply applyMerged and applyManifest, Rollback the restore and the revert,
--     Converge the converge path, Digest setDigest and the texts, Drift the comparison
--     with the host, Engine the plumbing.
--   * Reconcile: Applier.Apply of internal/reconcile/apply.go. Its children have the health probe of
--     probe.go (Probe), WriteUnit (Units) and the commands of systemctl and podman (Podman) of
--     systemd.go.
--   * Manifest: internal/manifest/manifest.go and validate.go, with path.Clean.
--   * Journal: internal/journal/journal.go: the table, its statements and its queries. Its states
--     are those of internal/deploy/states.go.
--   * Api: Tokens has the token file of internal/api/auth.go, Proxy internal/api/proxy.go, Broker the
--     broker of internal/api/sse.go, Snapshots what it owes a new connection and Frames the stream that
--     it writes, Server the mutating routes of internal/api/api.go, Reads the reading ones, and
--     Metrics what internal/api/metrics.go counts.
--   * Registry: internal/registry/registry.go, the watcher's poll. Revision:
--     internal/revision/revision.go, the cache of revisions, what labels resolve to, and the wait for
--     them (Wait).
--   * Gitops: internal/gitops. Mirror has the state and the reads of the configuration repository,
--     Fetch its clone, fetch and reset, Services its listing (repo.go); GitHub has the client that
--     authors pull requests, and Checks the wait for their checks (github.go).
--   * Config: internal/config/config.go, the configuration file with its defaults and checks.
--   * Daemon: cmd/snowdeployd/main.go: what its start does to the journal (Orphans), the
--     repositories that it polls and its check for drift (Watch).
--   * Cli: cmd/snowdeploy. Client has the calls of the daemon's API (client.go), Follow the reader of
--     the event stream, Commands the commands up to their exit code (main.go), Validate the check of a
--     directory of manifests (validate.go).
--   * Script: code that drives a client of another system (go-git, go-github, package os), as a tree
--     of queries with a continuation on each reply, and contracts that such code keeps whatever is
--     replied. Polling: a loop that waits for a ticker or for the end of a context, with its rules.
--   * Platform: what comes from outside the repository, as parameters: %q, durations, net/url, the
--     YAML decoder and the template engine. Nothing is assumed of them.
--   * Base, Occurs, Dict: texts, lists, errors, integers and maps that all of them use.
--
-- Deploy/Protocol is the specification of a run, Deploy/Keeps proves that the program keeps to it,
-- and Deploy/Outcome reads the results off it for the traces of any world. Tests has concrete
-- worlds, manifests and tables.
--
-- A deferred release stands at the end of the program that it encloses. A goroutine is the call
-- `go`, which hands over its request. Interleavings with other runs are the world's: it may answer
-- a call as any other run would have made it answer. A panic is not modelled.
--
-- Bounds. mergeThroughChecks and revertMain recurse on the attempts that are left, which are
-- mergeAttempts and RevertAttempts of the code, so no fuel is spent. strconv.Itoa spends the number
-- itself as fuel, which is at least its count of digits. A polling loop takes one unit of fuel for
-- each round; its theorems have it return in the round in which its context ends at the latest, for
-- any fuel beyond that round. The reader of the event stream takes a line in each round, and its fuel
-- is one more than the lines. Texts are lists of code points; Go's byte strings agree with them on
-- valid UTF-8 for all the tests that the code makes. Journal ids and pull request numbers are natural
-- numbers; manifest ports, timeouts and limits are integers. No arithmetic of the code comes near the
-- bounds of its machine integers.
--
-- Errors carry their text and the sentinels that errors.Is would find. The driver of the journal may
-- fail any statement, as the parameter `fault`: before it wrote, or behind the write.
--
-- The order in which Go walks a map is a parameter of Config, of which it is assumed that it visits
-- each entry. The mutex of the mirror is held for the whole of each operation, so that the
-- operations are modelled one after the other.
--
-- What a stream or the client's reader holds is the list of its lines: a payload of encoding/json has
-- no line break. The client's reader stops at a line of 64 KiB, as bufio.Scanner does. What JSON
-- encodes is assumed to be decoded again where both ends meet.
--
-- Not modelled: the text output of the metrics, the wiring and the listeners of the daemon, what the
-- command line client prints, the web interface, and Wait and QueueDepth of the engine. They are
-- input and output or wiring, or planned.
pub mod Base
pub mod Occurs
pub mod Dict
pub mod Platform
pub mod Manifest
pub mod Journal
pub mod Effect
pub mod Reconcile
pub mod Deploy
pub mod Registry
pub mod Revision
pub mod Script
pub mod Polling
pub mod Gitops
pub mod Config
pub mod Cli
pub mod Daemon
pub mod Api
pub mod Tests
