-- ===== src/Proto/Response.antt =====
-- crates/interfire-proto/src/lib.rs: the responses of the daemon and their frames.
use inter_fire.Prelude.{ℕ, List, [], ◌∷◌, ◌++◌, Text, lit, show_nat, frame_of}
use inter_fire.Proto.Status.{StatsSummary, NetworkStatus, state_str}

-- `StatusBody`
pub record StatusBody : Type 0 where
  pub enforcement : Text
  pub observation : Text
  pub traffic : Text
  pub traffic_machine : Text
  pub traffic_user : Text
  pub traffic_effective : Text
  pub ipc_version : ℕ
  pub pid : ℕ
  pub rss_kib : ℕ
  pub cpu_jiffies : ℕ

pub data Response : Type 0 where
  pong : Response
  status : StatusBody → Response
  error rules prompts dns audit subscribed processes : Text → Response
  network : NetworkStatus → Response
  stats_summary : StatsSummary → Response
  stats_hosts stats_procs stats_addrs stats_ports stats_users : Text → Response

-- The words of the frames with fields
abbrev pub status_words : StatusBody → List Text
status_words body =
    lit "v1"
    ∷ lit "status"
    ∷ (lit "enforcement=" ++ body.enforcement)
    ∷ (lit "observation=" ++ body.observation)
    ∷ (lit "traffic=" ++ body.traffic)
    ∷ (lit "traffic_machine=" ++ body.traffic_machine)
    ∷ (lit "traffic_user=" ++ body.traffic_user)
    ∷ (lit "traffic_effective=" ++ body.traffic_effective)
    ∷ (lit "ipc_version=" ++ show_nat body.ipc_version)
    ∷ (lit "pid=" ++ show_nat body.pid)
    ∷ (lit "rss_kib=" ++ show_nat body.rss_kib)
    ∷ (lit "cpu_jiffies=" ++ show_nat body.cpu_jiffies)
    ∷ []

abbrev pub network_words : NetworkStatus → List Text
network_words body =
    lit "v1"
    ∷ lit "network"
    ∷ (lit "table=" ++ body.table)
    ∷ (lit "queue=" ++ show_nat body.queue)
    ∷ (lit "state=" ++ state_str body.state)
    ∷ (lit "rule=" ++ body.rule)
    ∷ []

abbrev pub summary_words : StatsSummary → List Text
summary_words body =
    lit "v1"
    ∷ lit "stats-summary"
    ∷ (lit "connections=" ++ show_nat body.connections)
    ∷ (lit "denied=" ++ show_nat body.denied)
    ∷ (lit "uptime_secs=" ++ show_nat body.uptime_secs)
    ∷ (lit "rules=" ++ show_nat body.rules)
    ∷ (lit "version=" ++ body.version)
    ∷ (lit "git=" ++ body.git)
    ∷ []

abbrev pub frame : Text → Text → Text
frame label payload = frame_of (lit "v1" ∷ label ∷ payload ∷ [])

-- `Response::encode`
unfoldable pub encode : Response → Text
encode pong = frame_of (lit "v1" ∷ lit "pong" ∷ [])
encode (status body) = frame_of (status_words body)
encode (error message) = frame (lit "error") message
encode (rules value) = frame (lit "rules") value
encode (prompts value) = frame (lit "prompts") value
encode (dns value) = frame (lit "dns") value
encode (audit value) = frame (lit "audit-tail") value
encode (subscribed id) = frame (lit "subscribed") id
encode (processes value) = frame (lit "processes") value
encode (network body) = frame_of (network_words body)
encode (stats_summary body) = frame_of (summary_words body)
encode (stats_hosts value) = frame (lit "stats-hosts") value
encode (stats_procs value) = frame (lit "stats-procs") value
encode (stats_addrs value) = frame (lit "stats-addrs") value
encode (stats_ports value) = frame (lit "stats-ports") value
encode (stats_users value) = frame (lit "stats-users") value
