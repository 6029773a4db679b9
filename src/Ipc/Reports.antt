-- ===== src/Ipc/Reports.antt =====
-- crates/interfire-daemon/src/ipc.rs: the handlers that report, and `dispatch` over them. A Boolean
-- says whether the lock of a table is poisoned.
pub mod Rules
pub mod Unreadable
pub mod Processes
pub mod Seen
mod Tests
use inter_fire.Prelude.{
  ℕ, ◌-◌, ◌/◌, Bool, true, false, Option, none, some, List, [], ◌∷◌, ◌++◌, map, reverse, Text, lit,
  join, show_nat, length, le_bytes, if◌then◌else◌, ◌||◌,
}
use inter_fire.Rules.{
  Rule, RuleSet, Verdict, allow, deny, prompt, Connection, Protocol, Direction, v4, verdict_for,
}
use inter_fire.Prompts.{Prompt, PromptQueue, list_pending}
use inter_fire.Dns.{DnsCache, list_fresh}
use inter_fire.Audit.{AuditLog, BoundedLogRecord, tail}
use inter_fire.Recent.{RecentDest, RecentConnects, for_process}
use inter_fire.Process.{ProcessIdentity, ProcessCache}
use inter_fire.Metrics.{SelfMetrics}
use inter_fire.Stats
use inter_fire.Stats.{StatsCounters, StatsStore}
use inter_fire.Traffic.{as_str, load, user_name}
use inter_fire.Control.{
  Modes, enforcement, traffic, traffic_effective, Observation, observation_label,
}
use inter_fire.Proto.Rows.{ProcessRow, encode_process_row, StatsRow, encode_stats_row}
use inter_fire.Proto.Status.{StatsSummary}
use inter_fire.Proto.Response.{Response, StatusBody}

abbrev pub poisoned : Response
poisoned = Response.error (lit "lock_poisoned")

-- `{:?}` of a verdict
abbrev pub debug_verdict : Verdict → Text
debug_verdict allow = lit "Allow"
debug_verdict deny = lit "Deny"
debug_verdict prompt = lit "Prompt"

-- `{:?}` and `to_ascii_lowercase`
abbrev pub verdict_word : Verdict → Text
verdict_word allow = lit "allow"
verdict_word deny = lit "deny"
verdict_word prompt = lit "prompt"

abbrev pub or_port : Option ℕ → ℕ
or_port none = 0
or_port (some port) = port

-- The columns of a rule, which are not escaped
abbrev pub rule_columns : Rule → List Text
rule_columns rule =
    show_nat rule.id
    ∷ rule.executable
    ∷ debug_verdict rule.verdict
    ∷ show_nat (or_port rule.port)
    ∷ []

abbrev pub rule_text : Rule → Text
rule_text rule = join (lit "|") (rule_columns rule)

-- `rule_list`
unfoldable pub rule_list : Bool → RuleSet → Response
rule_list locked rules =
    if locked then poisoned else Response.rules (join (lit ",") (map rule_text rules))

abbrev pub dotted : List ℕ → Text
dotted octets = join (lit ".") (map show_nat octets)

abbrev pub prompt_text : ℕ → Prompt → Text
prompt_text now p = join (lit "|") (
    show_nat p.id
    ∷ p.key.executable
    ∷ dotted (le_bytes 4 p.key.ipv4)
    ∷ show_nat p.key.port
    ∷ lit "tcp"
    ∷ show_nat ((p.expires_at - now) / 1000)
    ∷ [])

-- `prompt_list`, with `encode_prompts`: two readings of the clock
unfoldable pub prompt_list : Bool → ℕ → ℕ → PromptQueue → Response × PromptQueue
prompt_list locked now later queue =
    let (pending, queue') = list_pending later queue in
    if locked
    then (poisoned, queue)
    else (Response.prompts (join (lit ",") (map (prompt_text now) pending)), queue')

abbrev pub dns_text : Text × ℕ × ℕ → Text
dns_text (hostname, ipv4, ttl) =
    join (lit "|") (hostname ∷ dotted (le_bytes 4 ipv4) ∷ show_nat ttl ∷ [])

-- `dns_list`
unfoldable pub dns_list : Bool → ℕ → ℕ → DnsCache → Response × DnsCache
dns_list locked now later cache =
    let (rows, cache') = list_fresh now later cache in
    if locked
    then (poisoned, cache)
    else (Response.dns (join (lit ",") (map dns_text rows)), cache')

abbrev pub audit_text : BoundedLogRecord → Text
audit_text record' = show_nat record'.sequence ++ (lit "|" ++ record'.message)

-- `audit_tail`
unfoldable pub audit_tail : Bool → ℕ → AuditLog → Response
audit_tail locked limit log =
    if locked then poisoned else Response.audit (join (lit ",") (map audit_text (tail limit log)))

-- A destination; the number of its address has the first octet on top
abbrev pub dest_text : RecentDest → Text
dest_text dest =
    dotted (reverse (le_bytes 4 dest.ipv4))
    ++ (lit ":" ++ (show_nat dest.port ++ (lit "/" ++ dest.verdict)))

-- The connection without an address that `process_list` asks the rules about
abbrev pub any_connection : Text → Connection
any_connection executable = record {
  executable = executable;
  protocol = Protocol.tcp;
  direction = Direction.outbound;
  address = v4 0 0 0 0;
  hostname = none;
  port = 0;
}

abbrev pub process_row : RuleSet → RecentConnects → ProcessIdentity → ProcessRow
process_row rules recent identity = record {
  pid = identity.pid;
  start_ticks = identity.start_ticks;
  uid = identity.uid;
  executable = identity.executable;
  cmdline = join (lit " ") identity.command_line;
  verdict = verdict_word (verdict_for rules (any_connection identity.executable));
  ports = join (lit "+") (map dest_text (for_process identity.pid identity.start_ticks recent));
}

-- `process_list`, over three locks
unfoldable pub process_list :
    Bool → Bool → Bool → RuleSet → RecentConnects → ProcessCache → Response
process_list cache_locked recent_locked rules_locked rules recent cache =
    if cache_locked || (recent_locked || rules_locked)
    then poisoned
    else Response.processes (
        join (lit ";")
          (map encode_process_row (map (process_row rules recent) (inter_fire.Process.list cache))))

abbrev pub stats_row : Text × StatsCounters → StatsRow
stats_row (key, counters) = record {
  key = key;
  hits = counters.hits;
  allow = counters.allow;
  deny = counters.deny;
  prompt = counters.prompt;
}

pub data StatsKind : Type 0 where
  hosts procs addrs ports users : StatsKind

abbrev pub rows_of_kind : StatsKind → StatsStore → List (Text × StatsCounters)
rows_of_kind StatsKind.hosts s = Stats.hosts s
rows_of_kind StatsKind.procs s = Stats.procs s
rows_of_kind StatsKind.addrs s = Stats.addrs s
rows_of_kind StatsKind.ports s = Stats.ports s
rows_of_kind StatsKind.users s = Stats.users s

abbrev pub response_of_kind : StatsKind → Text → Response
response_of_kind StatsKind.hosts payload = Response.stats_hosts payload
response_of_kind StatsKind.procs payload = Response.stats_procs payload
response_of_kind StatsKind.addrs payload = Response.stats_addrs payload
response_of_kind StatsKind.ports payload = Response.stats_ports payload
response_of_kind StatsKind.users payload = Response.stats_users payload

-- `stats_list`, with `encode_stats_rows`
unfoldable pub stats_list : Bool → StatsKind → StatsStore → Response
stats_list locked kind stats =
    if locked
    then poisoned
    else response_of_kind kind
        (join (lit ";") (map encode_stats_row (map stats_row (rows_of_kind kind stats))))

-- `stats_summary`: rules that are locked count as none; the version and the revision are those of the
-- build.
unfoldable pub stats_summary : Bool → Bool → ℕ → Text → Text → RuleSet → StatsStore → Response
stats_summary locked rules_locked now version git rules stats =
    let s = Stats.summary now (if rules_locked then 0 else length rules) stats in
    if locked
    then poisoned
    else Response.stats_summary (record {
      connections = s.connections;
      denied = s.denied;
      uptime_secs = s.uptime_secs;
      rules = s.rules;
      version = version;
      git = git;
    })

abbrev pub or_metrics : ℕ → Option SelfMetrics → SelfMetrics
or_metrics own none = record { pid = own; rss_kib = 0; cpu_jiffies = 0 }
or_metrics own (some metrics) = metrics

abbrev pub or_root : Option ℕ → ℕ
or_root none = 0
or_root (some uid) = uid

-- The arm of `status`: the peer, the own pid, and the sample of `/proc/self` if it can be taken
unfoldable pub status_report : Option ℕ → ℕ → Option SelfMetrics → Observation → Modes → Response
status_report peer own sample observation modes =
    let metrics = or_metrics own sample in
    let uid = or_root peer in
    Response.status (record {
      enforcement = enforcement modes;
      observation = observation_label observation;
      traffic = traffic modes;
      traffic_machine = as_str modes.machine;
      traffic_user = as_str (load (user_name uid) modes.directory);
      traffic_effective = traffic_effective uid modes;
      ipc_version = 1;
      pid = metrics.pid;
      rss_kib = metrics.rss_kib;
      cpu_jiffies = metrics.cpu_jiffies;
    })
