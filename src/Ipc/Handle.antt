-- ===== src/Ipc/Handle.antt =====
-- crates/interfire-daemon/src/ipc.rs: `handle` and `dispatch`, from the frame that a peer writes to the
-- frame that it reads. The tables that no request changes stand beside those that one may change.
pub mod Guarded
pub mod Kept
use inter_fire.Prelude.{
  ℕ, Bool, true, false, ◌||◌, Option, none, some, List, [], ◌∷◌, Text, lit, if◌then◌else◌, ltb,
  contains, eq_nat,
}
use inter_fire.Rules.Store.{Toml}
use inter_fire.Recent.{RecentConnects}
use inter_fire.Process.{ProcessCache}
use inter_fire.Stats.{StatsStore}
use inter_fire.Audit.{AuditLog, subscribe, byte_length}
use inter_fire.Nft
use inter_fire.Nft.{Run, NetworkTableState}
use inter_fire.Control.{Observation}
use inter_fire.Proto
use inter_fire.Proto.{Parsed, parse}
use inter_fire.Proto.Response.{encode}
use inter_fire.Ipc.{Response, pong, error, Request, Server, is_blank}
use inter_fire.Metrics.{sample_self}
use inter_fire.Ipc.Serve
use inter_fire.Ipc.Serve.{Command, serve}
use inter_fire.Ipc.Reports.{
  rule_list, prompt_list, dns_list, audit_tail, process_list, StatsKind, stats_list, stats_summary,
  status_report,
}

-- What a request meets besides: the pid of the daemon and its files of `/proc/self`, the run of `nft list` with its
-- output, and the version and revision of the build
pub record Context : Type 0 where
  pub request : Request
  pub own_pid : ℕ
  pub self_status : Option Text
  pub self_stat : Option Text
  pub list_run : Run
  pub list_output : Text
  pub version : Text
  pub git : Text

-- The tables that requests read only, but for the subscribers of the log
pub record Tables : Type 0 where
  pub cache : ProcessCache
  pub recent : RecentConnects
  pub stats : StatsStore
  pub audit : AuditLog
  pub observation : Observation
  -- Which of their locks are poisoned
  pub cache_poisoned : Bool
  pub recent_poisoned : Bool
  pub stats_poisoned : Bool
  pub audit_poisoned : Bool

-- `nft::status`, with `body`
abbrev pub network_body : NetworkTableState × Text → Response
network_body (state, rule) =
    Response.network (record { table = lit "interfire"; queue = 4242; state = state; rule = rule })

-- The frame of a response, if there is one
abbrev pub written : Option Response → Option Text
written none = none
written (some response) = some (encode response)

module _ (toml : Toml) where
  pub record Shared : Type 0 where
    pub server : Server toml
    pub tables : Tables

  abbrev pub with_server : Shared → Option Response × Server toml → Option Response × Shared
  with_server s (response, server) = (response, record s { server = server })

  -- The arms that change the daemon
  abbrev pub change : Context → Shared → Command → Option Response × Shared
  change c s command = with_server s (serve toml c.request command s.server)

  -- The arms that read only
  abbrev pub reported : Shared → Response → Option Response × Shared
  reported s response = (some response, s)

  -- `dispatch`; no response where the thread panics
  unfoldable pub dispatch : Context → Proto.Request → Shared → Option Response × Shared
  dispatch c Proto.ping s = reported s (pong)
  dispatch c Proto.status s = reported s (
      status_report c.request.peer c.own_pid (sample_self c.own_pid c.self_status c.self_stat)
        s.tables.observation s.server.modes)
  dispatch c Proto.rule_list s = reported s (rule_list s.server.poisoned.rules s.server.rules)
  dispatch c (Proto.rule_delete id) s = change c s (Serve.delete id)
  dispatch c (Proto.rule_add id executable verdict port) s =
      change c s (Serve.add id executable verdict port)
  dispatch c Proto.prompt_list s =
      let (response, prompts) =
        prompt_list s.server.poisoned.prompts c.request.now c.request.later s.server.prompts in
      (some response, record s { server = record s.server { prompts = prompts } })
  dispatch c (Proto.prompt_answer id verdict scope) s = change c s (Serve.answer id verdict scope)
  dispatch c Proto.dns_list s =
      let (response, dns) =
        dns_list s.server.poisoned.dns c.request.now c.request.later s.server.dns in
      (some response, record s { server = record s.server { dns = dns } })
  dispatch c (Proto.dns_note hostname ipv4 ttl_secs) s =
      change c s (Serve.note hostname ipv4 ttl_secs)
  dispatch c (Proto.audit_tail limit) s =
      reported s (audit_tail s.tables.audit_poisoned limit s.tables.audit)
  dispatch c (Proto.audit_subscribe id since) s = reported s (error (lit "malformed_request"))
  dispatch c Proto.process_list s = reported s (
      process_list s.tables.cache_poisoned s.tables.recent_poisoned s.server.poisoned.rules
        s.server.rules s.tables.recent s.tables.cache)
  dispatch c Proto.network_status s =
      reported s (network_body (Nft.status c.list_run c.list_output))
  dispatch c Proto.network_install s = change c s Serve.network_install
  dispatch c Proto.network_remove s = change c s Serve.network_remove
  dispatch c Proto.pause s = change c s Serve.pause
  dispatch c Proto.resume s = change c s Serve.resume
  dispatch c (Proto.traffic_block scope direction) s = change c s (Serve.block scope direction)
  dispatch c (Proto.traffic_unblock scope) s = change c s (Serve.unblock scope)
  dispatch c Proto.stats_summary s = reported s (
      stats_summary s.tables.stats_poisoned s.server.poisoned.rules c.request.now c.version c.git
        s.server.rules s.tables.stats)
  dispatch c Proto.stats_hosts s =
      reported s (stats_list s.tables.stats_poisoned StatsKind.hosts s.tables.stats)
  dispatch c Proto.stats_procs s =
      reported s (stats_list s.tables.stats_poisoned StatsKind.procs s.tables.stats)
  dispatch c Proto.stats_addrs s =
      reported s (stats_list s.tables.stats_poisoned StatsKind.addrs s.tables.stats)
  dispatch c Proto.stats_ports s =
      reported s (stats_list s.tables.stats_poisoned StatsKind.ports s.tables.stats)
  dispatch c Proto.stats_users s =
      reported s (stats_list s.tables.stats_poisoned StatsKind.users s.tables.stats)

  -- `audit_subscribe`: the frame that is written first, and the log with the subscriber
  unfoldable pub audit_subscribe : Text → Shared → Response × Shared
  audit_subscribe id s =
      if is_blank id || (contains b'|' id || contains b' ' id)
      then (error (lit "invalid_subscriber"), s)
      else if s.tables.audit_poisoned
      then (error (lit "lock_poisoned"), s)
      else (
        Response.subscribed id,
        record s { tables = record s.tables { audit = (subscribe id s.tables.audit).1 } },
      )

  abbrev pub subscribed : Response × Shared → Option Response × Shared
  subscribed (response, s) = (some response, s)

  unfoldable pub answer : Context → Parsed → Shared → Option Response × Shared
  unfolding dispatch audit_subscribe
  answer c (Parsed.ok (Proto.audit_subscribe id since)) s = subscribed (audit_subscribe id s)
  answer c (Parsed.ok request) s = dispatch c request s
  answer c (Parsed.err e) s = reported s (error (lit "malformed_request"))

  -- `handle`, of the line that was read: the frame that is written, if the thread gets that far, and the daemon after it
  unfoldable pub handle : Context → Text → Shared → Option Text × Shared
  unfolding answer
  handle c frame s =
      let (response, s') =
        if ltb 8192 (byte_length frame)
        then reported s (error (lit "frame_too_large"))
        else answer c (parse frame) s in
      (written response, s')

  -- The frames of several peers, one after the other
  unfoldable pub handle_all : List (Context × Text) → Shared → Shared
  handle_all [] s = s
  handle_all ((c, frame) ∷ frames) s = handle_all frames (handle c frame s).1
