-- ===== src/Policy.antt =====
-- crates/interfire-daemon/src/policy.rs: from the event of a connect to the verdict for its packets.
-- The tables that `decide` borrows are one state, and the readings of the clock are an argument.
pub mod FailClosed
pub mod Tests
use inter_fire.Prelude.{
  ℕ, ◌+◌, ◌*◌, Bool, true, false, not, Option, none, some, List, [], ◌∷◌, Text, lit, show_nat, join,
  map, nat_eq, if◌then◌else◌, from_be,
}
use inter_fire.Rules.{RuleSet, Connection, Protocol, Direction, IpAddr, v4, verdict_for}
use inter_fire.Pending.{DestKey, accept, drop}
use inter_fire.Process.{
  ProcessIdentity, ProcessCache, Procfs, Attributed, resolve, get_identity, insert_identity,
}
use inter_fire.Prompts.{
  PromptKey, PromptQueue, EnqueueOutcome, created, deduped, full, take_once_allow,
  consume_once_deny, enqueue,
}
use inter_fire.Dns.{DnsCache, hostname_for, name_of}
use inter_fire.Recent.{RecentConnects, RecentDest, record_dest}
use inter_fire.Stats.{ConnectStats}
use inter_fire.Event.{TcpConnectEvent, destination_octets}

pub record Decision : Type 0 where
  pub key : DestKey
  pub packet_verdict : inter_fire.Pending.Verdict
  pub attributed : Bool
  pub prompt_id : Option ℕ
  pub stats : Option ConnectStats

-- The tables that a decision may change
pub record Tables : Type 0 where
  pub cache : ProcessCache
  pub prompts : PromptQueue
  pub dns : DnsCache
  pub recent : RecentConnects

-- The readings of the clock: two of `take_once_allow`, one of `consume_once_deny`, two of `enqueue`
-- and one of the name lookup, which comes last where a token is spent.
pub record Readings : Type 0 where
  pub allow : ℕ
  pub allow_token : ℕ
  pub deny : ℕ
  pub name : ℕ
  pub ask : ℕ
  pub asked : ℕ

-- `Ipv4Addr::from(event.destination_octets()).to_string()`
abbrev pub show_address : TcpConnectEvent → Text
show_address event = join (lit ".") (map show_nat (destination_octets event))

abbrev pub address_of : List ℕ → IpAddr
address_of (a ∷ b ∷ c ∷ d ∷ []) = v4 a b c d
address_of octets = inter_fire.Rules.v6 octets

-- `connection_from`, and the cache that its lookup leaves
unfoldable pub connection_from :
    ℕ → ProcessIdentity → TcpConnectEvent → DnsCache → Connection × DnsCache
connection_from now identity event cache =
    let (hostname, dns) = hostname_for now event.destination_ipv4 cache in
    (
      record {
        executable = identity.executable;
        protocol = Protocol.tcp;
        direction = Direction.outbound;
        address = address_of (destination_octets event);
        hostname = hostname;
        port = event.destination_port;
      },
      dns,
    )

abbrev pub unwrap_or {ℓ} : {A : Type ℓ} → Option A → A → A
unwrap_or none a = a
unwrap_or (some b) a = b

abbrev pub stats_of : ProcessIdentity → TcpConnectEvent → Connection → Text → ConnectStats
stats_of identity event connection verdict = record {
  executable = identity.executable;
  host = unwrap_or connection.hostname (show_address event);
  ipv4 = show_address event;
  port = event.destination_port;
  uid = identity.uid;
  verdict = verdict;
}

-- `connect_stats`
unfoldable pub connect_stats :
    ℕ → ProcessIdentity → TcpConnectEvent → DnsCache → Text → ConnectStats × DnsCache
connect_stats now identity event cache verdict =
    let (connection, dns) = connection_from now identity event cache in
    (stats_of identity event connection verdict, dns)

-- `record_recent`
unfoldable pub record_recent :
    ProcessIdentity → TcpConnectEvent → Text → RecentConnects → RecentConnects
record_recent identity event verdict recent =
    record_dest identity.pid identity.start_ticks
      (record {
        ipv4 = from_be (destination_octets event);
        port = event.destination_port;
        verdict = verdict;
      })
      recent

-- The cached identity, which is not trusted for an event without a start time
abbrev pub cached : TcpConnectEvent → ProcessCache → Option ProcessIdentity
cached event cache =
    if nat_eq event.process_start_ticks 0
    then none
    else get_identity event.pid event.process_start_ticks cache

-- What `/proc` says, behind the cache
abbrev pub from_proc : Attributed → ProcessCache → Option ProcessIdentity × ProcessCache
from_proc (Attributed.ok identity) cache = (some identity, insert_identity identity cache)
from_proc (Attributed.err error) cache = (none, cache)

abbrev pub attribute_by :
    Option ProcessIdentity → Attributed → ProcessCache → Option ProcessIdentity × ProcessCache
attribute_by (some identity) resolved cache = (some identity, cache)
attribute_by none resolved cache = from_proc resolved cache

-- `attribute`: the identity, or none where `/proc` does not give it, and the cache
unfoldable pub attribute :
    Procfs → TcpConnectEvent → ProcessCache → Option ProcessIdentity × ProcessCache
attribute procfs event cache =
    attribute_by (cached event cache) (resolve procfs event.pid event.process_start_ticks) cache

abbrev pub key_of : TcpConnectEvent → DestKey
key_of event = record { ipv4 = event.destination_ipv4; port = event.destination_port }

abbrev pub prompt_key_of : ProcessIdentity → TcpConnectEvent → PromptKey
prompt_key_of identity event = record {
  executable = identity.executable;
  ipv4 = event.destination_ipv4;
  port = event.destination_port;
}

-- The return of a spent token
pub spend :
    ℕ
    → ProcessIdentity
    → TcpConnectEvent
    → inter_fire.Pending.Verdict
    → Text
    → Tables
    → Decision × Tables
spend now identity event verdict label t =
    let (stats, dns) = connect_stats now identity event t.dns label in
    (
      record {
        key = key_of event;
        packet_verdict = verdict;
        attributed = true;
        prompt_id = none;
        stats = some stats;
      },
      record t { recent = record_recent identity event label t.recent; dns = dns },
    )

abbrev pub id_of : EnqueueOutcome → Option ℕ
id_of (created id) = some id
id_of (deduped id) = some id
id_of full = none

-- The packet verdict, the prompt and the label of a rule verdict, and the queue
pub ask_rules :
    ℕ
    → ℕ
    → inter_fire.Rules.Verdict
    → PromptKey
    → PromptQueue
    → (inter_fire.Pending.Verdict × Option ℕ × Text) × PromptQueue
ask_rules now now' inter_fire.Rules.Verdict.allow key prompts =
    ((accept, none, lit "allow"), prompts)
ask_rules now now' inter_fire.Rules.Verdict.deny key prompts = ((drop, none, lit "deny"), prompts)
ask_rules now now' inter_fire.Rules.Verdict.prompt key prompts =
    let (outcome, queue) = enqueue now now' key prompts in
    ((drop, id_of outcome, lit "prompt"), queue)

-- The part of `decide_attributed` behind the tokens
unfoldable pub decide_by_rules :
    Readings → RuleSet → ProcessIdentity → TcpConnectEvent → Tables → Decision × Tables
unfolding ask_rules
decide_by_rules now rules identity event t =
    let (connection, dns) = connection_from now.name identity event t.dns in
    let ((verdict, prompt_id, label), prompts) =
      ask_rules now.ask now.asked (verdict_for rules connection) (prompt_key_of identity event)
        t.prompts in
    (
      record {
        key = key_of event;
        packet_verdict = verdict;
        attributed = true;
        prompt_id = prompt_id;
        stats = some (stats_of identity event connection label);
      },
      record t {
        prompts = prompts;
        dns = dns;
        recent = record_recent identity event label t.recent;
      },
    )

-- `decide_attributed`
unfoldable pub decide_attributed :
    Readings → RuleSet → ProcessIdentity → TcpConnectEvent → Tables → Decision × Tables
unfolding spend decide_by_rules
decide_attributed now rules identity event t =
    let key = prompt_key_of identity event in
    let (allowed, prompts) = take_once_allow now.allow now.allow_token key t.prompts in
    let (denied, prompts') = consume_once_deny now.deny key prompts in
    if allowed
    then spend now.name identity event accept (lit "allow") (record t { prompts = prompts })
    else if denied
    then spend now.name identity event drop (lit "deny") (record t { prompts = prompts' })
    else decide_by_rules now rules identity event (record t { prompts = prompts' })

-- The decision by the identity
unfoldable pub decide_for :
    Readings → RuleSet → TcpConnectEvent → Option ProcessIdentity → Tables → Decision × Tables
decide_for now rules event (some identity) t = decide_attributed now rules identity event t
decide_for now rules event none t = (
  record {
    key = key_of event;
    packet_verdict = drop;
    attributed = false;
    prompt_id = none;
    stats = none;
  },
  t,
)

-- `decide`
unfoldable pub decide : Readings → Procfs → RuleSet → TcpConnectEvent → Tables → Decision × Tables
unfolding decide_for
decide now procfs rules event t =
    let (identity, cache) = attribute procfs event t.cache in
    decide_for now rules event identity (record t { cache = cache })
