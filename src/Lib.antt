-- ===== src/Lib.antt =====
-- InterFire: an application firewall for Linux. A kernel program reports each IPv4 TCP connect; the
-- daemon finds the process behind it, decides by rules, by the operator's answers and by prompts, and
-- stores the verdict for the packet that NFQUEUE delivers. Traffic preferences drop connections in an
-- nftables table of the daemon's own.
--
-- The parts, and the code that each is about (paths from the repository's root):
--   Rules        crates/interfire-rules/src/lib.rs: rules, their precedence, the set (insert, remove,
--                verdict_for), and the rules file (Rules.Store: load, save)
--   Event        crates/interfire-ebpf/src/lib.rs and crates/interfire-ebpf-programs/src/main.rs: the
--                record of a connect (try_tcp_connect, try_from_bytes)
--   Packet       crates/interfire-daemon/src/packet.rs: tcp_destination
--   Process      crates/interfire-daemon/src/process.rs: resolve and the cache of identities
--   Dns, Recent, Stats, Pending, Prompts, Audit
--                crates/interfire-daemon/src/dns.rs, recent.rs, stats.rs, pending.rs, prompts.rs and
--                audit.rs: the bounded tables of the daemon
--   Policy       crates/interfire-daemon/src/policy.rs: decide, over the tables that it borrows
--   Daemon       crates/interfire-daemon/src/observe.rs (handle_event) and nfqueue_live.rs
--                (lookup_verdict): the two threads over the shared tables
--   Traffic      crates/interfire-daemon/src/traffic_mode.rs and enforcement_mode.rs: preferences and
--                their files
--   Nft          crates/interfire-daemon/src/nft.rs: the scripts, the calls of nft, the list
--   Control      crates/interfire-daemon/src/shared.rs: pause, resume, traffic blocks, reapply_table
--   Proto        crates/interfire-proto/src/lib.rs: the frames of the socket in both directions
--                (Request::parse, Response::encode), and the rows and fields that clients read
--   Ipc          crates/interfire-daemon/src/ipc.rs and operator_auth.rs: the requests that change the
--                daemon, over Rules, Prompts, Dns and Control, and who may send them; Ipc.Reports: the
--                lists and the status that it answers; Ipc.Handle: handle and dispatch over both
--   Tui          crates/interfire-tui/src/app.rs: the state of the terminal client, its keys (Tui.Keys),
--                its windows (Tui.Window); src/ipc.rs: its requests (Tui.Requests) and its
--                subscription to the log (Tui.Session)
--   Metrics      crates/interfire-daemon/src/proc_metrics.rs: the daemon's own memory and time
--   Ctl          crates/interfirectl/src/main.rs: the requests of the command line
--   Prelude      what these share: tests, lists, texts, machine words, maps, and the eviction and
--                expiry loops of the bounded tables
--
-- State is passed explicitly: an operation takes its table and returns it changed, next to its result.
-- The clock is read where the code reads it, and each reading is an argument, a number of milliseconds
-- (of any one unit in Pending). A hash map is an association list whose removal takes every entry of
-- the key. Text is the list of its code points. A u64 or u32 keeps its saturation or its range where
-- the code relies on it. File calls, nft and /proc are arguments that say what each call comes to; the
-- TOML library is a record of its two functions with the law that it reads what it wrote, and of the
-- first bytes of a text, which a write that fails leaves behind. Where a request makes its thread panic
-- (a lifetime that the clock cannot show, in Dns.observe), there is no response, the connection closes
-- without a frame, and the lock that the thread holds is poisoned. Loops are structural; the attempts
-- of lookup_verdict are the 50 of the code, each with the state it meets.
--
-- The log of the terminal client holds the 2000 lines of the code, and its frames have at most 8192
-- bytes. Its keys and the events from the daemon are the steps of a relation, in any order.
--
-- Not modelled: the drawing and the polling loops of the clients, the desktop client, the threads and
-- sockets around the modelled functions, and the loader of the kernel program.
mod Prelude
pub mod Rules
pub mod Pending
pub mod Dns
pub mod Recent
pub mod Process
pub mod Stats
pub mod Prompts
pub mod Event
pub mod Packet
pub mod Policy
pub mod Daemon
pub mod Audit
pub mod Traffic
pub mod Nft
pub mod Control
pub mod Proto
pub mod Ipc
pub mod Tui
pub mod Ctl
pub mod Metrics
