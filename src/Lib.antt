-- ===== src/Lib.antt =====
-- agentflash: verification of the real-time visualizer of file system activity.
--
-- The program runs in two processes. The tap (`agentflash __tap`, with root's rights) reads file
-- accesses from the kernel and writes those that concern the watched directory as events. The UI
-- starts the tap, keeps the events in a hub that replays and sends them to browsers, lists
-- directories for them, watches the directory for changes and takes the calls of Claude Code's
-- hooks. A third subcommand merges those hooks into Claude Code's settings.
--
-- Files and the code they model:
--   Event       internal/event/event.go: Event and ClaudeInfo, the records that all parts share.
--   Event/Wire  the Writer and the Reader of the same file: one JSON document in a line. The JSON
--               encoder and decoder are parameters, bufio.Scanner is modelled as it is set up.
--   Fanotify    internal/tap/fanotify_linux.go: parseFanotifyEvents and pathForFD. The loop over
--               the buffer is on fuel, one round per byte; each round takes at least the 24 bytes
--               of the metadata, so the fuel never runs out (Fanotify/Stream). Fanotify/Device is
--               the device; the kernel's answers are a record Kernel, and the calls are kept in a
--               log.
--   Tap         internal/tap/tap_linux.go, tap.go, proc_linux.go, exclude_linux.go: the loop of Run
--               on Linux. The reads of the fanotify descriptor are a list of byte strings; the state
--               is the cache of process names, the counters, the events written and the descriptors
--               closed. The kernel, /proc and the clock are a record World. Tap/Debug has the samples
--               that the loop logs and the lines of the raw dump; printing a mask is on fuel, 16
--               rounds of four bits each. Tap/Setup is Run as a whole, with networkFSName.
--   FsUsage     internal/tap/parse.go, tap_darwin.go and exclude_darwin.go: ParseLine, with the
--               regular expressions and the clock's parser as parameters. FsUsage/LineRe has the
--               regular expressions, over the part of package regexp in FsUsage/Regex, and
--               FsUsage/Clock has parseClockOnDay, over the part of package time that it uses.
--               FsUsage/Loop is the loop of Run on macOS with its samples and raw dump, and
--               FsUsage/Run is Run as a whole; the answers of the system are a record System.
--   Hub         internal/ui/hub.go, and the client channels of wsHandler in
--               internal/ui/server.go: NewHub, send, broadcast, BroadcastTransient, snapshot,
--               register, unregister. A panic is `none`. What the goroutines do is a list of
--               calls, each of them one step; `json.Marshal` is a parameter. Hub/Ingest is Ingest,
--               the loop over the stream that the tap writes. Hub/Overlap takes a send apart: its
--               critical section and each of its offers is a step, and sends overlap.
--   Session     wsHandler of internal/ui/server.go: the replay, the reader, the writer loop and the
--               senders share one client; each atomic move of theirs is a Step, in any order. It
--               stands on the steps of Hub/Overlap, and begins at any state that these reach.
--   Server      internal/ui/server.go: the routes that Run registers, over the part of http.ServeMux
--               that its patterns use, and what a request does at its handler; infoHandler of
--               internal/ui/tree.go. Server/Run is Run without its goroutines, with SpawnTap of
--               internal/ui/spawn.go; the answers of the system are a record System, and the
--               process that it starts and waits for is that of sudo.
--   Pipeline    the tap, its stream, Ingest and the replay composed.
--   Tree        internal/ui/tree.go: treeHandler, with os.ReadDir and os.Getwd as parameters.
--   Claude      internal/ui/claudehook.go: claudeHookHandler and all its helpers. The JSON decoder
--               and `json.Marshal` are parameters.
--   TreeWatch   internal/treewatch: classify, normalizePath and the forwarding round of the loop;
--               TreeWatch/Loop has New, the loop and Close as steps that interleave.
--   Watcher     runFSEventsWatcher, parentDir and timelineOp of internal/ui/server.go. Its events
--               come with the times at which they are handled; its result is a list of calls of
--               the hub.
--   Hooks       buildHooksMap, applyHooks and entryReferencesURL of main.go, and in Hooks/Start
--               runHooks. `json.Unmarshal` and `json.MarshalIndent` are parameters, the file system
--               is a value. Our own entries come through JSON before they are merged: what is not
--               valid UTF-8 in them becomes U+FFFD. Hooks/Mentions says which entries are kept.
--   Flags       main, parseNames and parsePIDs of main.go, and the arguments of SpawnTap in
--               internal/ui/spawn.go. Printing a process ID is on fuel, one round per unit; each
--               round divides by ten. Flags/Parse is package flag as it is used, and Flags/Start
--               has runTap, runUI and expandHome.
--   GoPath      package path/filepath of Go as far as the program uses it: Clean, Join, Abs, Base,
--               Rel. Its theorems relate bytes to names: `path_of names` is the rooted clean path.
--   Json        the values that encoding/json gives for `any`. A map is the list of its keys and
--               values, in one fixed order.
--   Common      bytes, native numbers, integers, lists and the parts of package strings in use, and in
--               Common/Ticks the loop that both statsTickers share (Tap/Stats, Hub/Stats).
--
-- How they interact: Tap decodes with Fanotify; Watcher and Claude act on the hub of Hub; Tree,
-- Claude, Tap and TreeWatch decide on paths by the tests on bytes that the source has, and
-- GoPath/Inside says what these mean by names. Sizes and counters wrap where the source's integers
-- do; lengths and times are natural numbers.
--
-- Not modelled: signals and the timeout of the shutdown, single lines of the log, the help texts, the
-- server of the web files, and the browser's code.
pub mod Common
pub mod Event
pub mod Fanotify
pub mod GoPath
pub mod Json
pub mod Claude
pub mod TreeWatch
pub mod Watcher
pub mod Hooks
pub mod Flags
pub mod FsUsage
pub mod Pipeline
pub mod Server
pub mod Session
pub mod Hub
pub mod Tap
pub mod Tree
