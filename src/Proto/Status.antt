-- ===== src/Proto/Status.antt =====
-- crates/interfire-proto/src/lib.rs: the responses with fields `key=value`, as the clients read them.
pub mod RoundTrip
use inter_fire.Prelude.{
  ℕ, Option, none, some, List, [], ◌∷◌, ◌++◌, Text, lit, eq_text, ◌==◌, if◌then◌else◌, strip_prefix,
  show_nat,
}
use inter_fire.Nft.{NetworkTableState, missing, installed, incomplete}
use inter_fire.Proto.{malformed, parse_u64, parse_u16}
use inter_fire.Proto.Client.{Result, ok, err, ◌>>=◌, ok_or, parse_u32, unknown_field, parse_fields}

-- `NetworkTableState::as_str`
abbrev pub state_str : NetworkTableState → Text
state_str missing = lit "missing"
state_str installed = lit "installed"
state_str incomplete = lit "incomplete"

-- `NetworkTableState::parse`
abbrev pub parse_state : Text → Result NetworkTableState
parse_state value =
    if value == lit "missing"
    then ok missing
    else if value == lit "installed"
    then ok installed
    else if value == lit "incomplete"
    then ok incomplete
    else err malformed

-- `StatsSummaryBody`, and `StatsSummary` of the clients
pub record StatsSummary : Type 0 where
  pub connections : ℕ
  pub denied : ℕ
  pub uptime_secs : ℕ
  pub rules : ℕ
  pub version : Text
  pub git : Text

-- The variables of the loop of `StatsSummary::parse`
pub record SummaryFields : Type 0 where
  pub connections : Option ℕ
  pub denied : Option ℕ
  pub uptime_secs : Option ℕ
  pub rules : Option ℕ
  pub version : Option Text
  pub git : Option Text

-- `Some(value.parse().map_err(..)?)`
abbrev pub number {ℓ} : {S : Type ℓ} → Option ℕ → (Option ℕ → S) → Result S
number none set = err malformed
number (some n) set = ok (set (some n))

-- The loop's body for one field: the first key that it begins with
abbrev pub summary_field : Text → SummaryFields → Result SummaryFields
summary_field field s = elim (strip_prefix (lit "connections=") field) [
  | some value ↦ number (parse_u64 value) (λ n. record s { connections = n })
  | none ↦ elim (strip_prefix (lit "denied=") field) [
    | some value ↦ number (parse_u64 value) (λ n. record s { denied = n })
    | none ↦ elim (strip_prefix (lit "uptime_secs=") field) [
      | some value ↦ number (parse_u64 value) (λ n. record s { uptime_secs = n })
      | none ↦ elim (strip_prefix (lit "rules=") field) [
        | some value ↦ number (parse_u64 value) (λ n. record s { rules = n })
        | none ↦ elim (strip_prefix (lit "version=") field) [
          | some value ↦ ok (record s { version = some value })
          | none ↦ elim (strip_prefix (lit "git=") field) [
            | some value ↦ ok (record s { git = some value })
            | none ↦ unknown_field field s
          ]
        ]
      ]
    ]
  ]
]

abbrev pub or_text : Text → Option Text → Text
or_text default none = default
or_text default (some value) = value

abbrev pub summary_of : SummaryFields → Result StatsSummary
summary_of s = do
  c ← ok_or s.connections
  d ← ok_or s.denied
  u ← ok_or s.uptime_secs
  r ← ok_or s.rules
  ok (record {
    connections = c;
    denied = d;
    uptime_secs = u;
    rules = r;
    version = or_text [] s.version;
    git = or_text [] s.git;
  })

abbrev pub no_summary : SummaryFields
no_summary = record {
  connections = none;
  denied = none;
  uptime_secs = none;
  rules = none;
  version = none;
  git = none;
}

-- `StatsSummary::parse`
unfoldable pub parse_summary : Text → Result StatsSummary
parse_summary frame =
    parse_fields summary_field no_summary (lit "stats-summary") frame >>= summary_of

-- `NetworkStatusBody`, and `NetworkStatus` of the clients
pub record NetworkStatus : Type 0 where
  pub table : Text
  pub queue : ℕ
  pub state : NetworkTableState
  pub rule : Text

-- The variables of the loop of `NetworkStatus::parse`
pub record NetworkFields : Type 0 where
  pub table : Option Text
  pub queue : Option ℕ
  pub state : Option NetworkTableState
  pub rule : Option Text

abbrev pub network_field : Text → NetworkFields → Result NetworkFields
network_field field s = elim (strip_prefix (lit "table=") field) [
  | some value ↦ ok (record s { table = some value })
  | none ↦ elim (strip_prefix (lit "queue=") field) [
    | some value ↦ number (parse_u16 value) (λ n. record s { queue = n })
    | none ↦ elim (strip_prefix (lit "state=") field) [
      | some value ↦ parse_state value >>= (λ state. ok (record s { state = some state }))
      | none ↦ elim (strip_prefix (lit "rule=") field) [
        | some value ↦ ok (record s { rule = some value })
        | none ↦ unknown_field field s
      ]
    ]
  ]
]

abbrev pub network_of : NetworkFields → Result NetworkStatus
network_of s = do
  t ← ok_or s.table
  q ← ok_or s.queue
  x ← ok_or s.state
  r ← ok_or s.rule
  ok (record { table = t; queue = q; state = x; rule = r })

abbrev pub no_network : NetworkFields
no_network = record { table = none; queue = none; state = none; rule = none }

-- `NetworkStatus::parse`
unfoldable pub parse_network : Text → Result NetworkStatus
parse_network frame = parse_fields network_field no_network (lit "network") frame >>= network_of

-- `DaemonStatus`
pub record DaemonStatus : Type 0 where
  pub enforcement : Text
  pub observation : Text
  pub traffic : Text
  pub traffic_machine : Text
  pub traffic_user : Text
  pub traffic_effective : Text
  pub ipc_version : ℕ
  pub pid : Option ℕ
  pub rss_kib : Option ℕ
  pub cpu_jiffies : Option ℕ

-- The variables of the loop of `DaemonStatus::parse`
pub record DaemonFields : Type 0 where
  pub enforcement : Option Text
  pub observation : Option Text
  pub traffic : Option Text
  pub traffic_machine : Option Text
  pub traffic_user : Option Text
  pub traffic_effective : Option Text
  pub ipc_version : Option ℕ
  pub pid : Option ℕ
  pub rss_kib : Option ℕ
  pub cpu_jiffies : Option ℕ

-- The fields that are numbers
abbrev pub daemon_number : Text → DaemonFields → Result DaemonFields
daemon_number field s = elim (strip_prefix (lit "ipc_version=") field) [
  | some value ↦ number (parse_u16 value) (λ n. record s { ipc_version = n })
  | none ↦ elim (strip_prefix (lit "pid=") field) [
    | some value ↦ number (parse_u32 value) (λ n. record s { pid = n })
    | none ↦ elim (strip_prefix (lit "rss_kib=") field) [
      | some value ↦ number (parse_u64 value) (λ n. record s { rss_kib = n })
      | none ↦ elim (strip_prefix (lit "cpu_jiffies=") field) [
        | some value ↦ number (parse_u64 value) (λ n. record s { cpu_jiffies = n })
        | none ↦ unknown_field field s
      ]
    ]
  ]
]

-- The loop's body for one field
abbrev pub daemon_field : Text → DaemonFields → Result DaemonFields
daemon_field field s = elim (strip_prefix (lit "enforcement=") field) [
  | some value ↦ ok (record s { enforcement = some value })
  | none ↦ elim (strip_prefix (lit "observation=") field) [
    | some value ↦ ok (record s { observation = some value })
    | none ↦ elim (strip_prefix (lit "traffic_machine=") field) [
      | some value ↦ ok (record s { traffic_machine = some value })
      | none ↦ elim (strip_prefix (lit "traffic_user=") field) [
        | some value ↦ ok (record s { traffic_user = some value })
        | none ↦ elim (strip_prefix (lit "traffic_effective=") field) [
          | some value ↦ ok (record s { traffic_effective = some value })
          | none ↦ elim (strip_prefix (lit "traffic=") field) [
            | some value ↦ ok (record s { traffic = some value })
            | none ↦ daemon_number field s
          ]
        ]
      ]
    ]
  ]
]

abbrev pub daemon_of : DaemonFields → Result DaemonStatus
daemon_of s = do
  e ← ok_or s.enforcement
  o ← ok_or s.observation
  v ← ok_or s.ipc_version
  let traffic = or_text (lit "open") s.traffic
  ok (record {
    enforcement = e;
    observation = o;
    traffic = traffic;
    traffic_machine = or_text (lit "open") s.traffic_machine;
    traffic_user = or_text (lit "open") s.traffic_user;
    traffic_effective = or_text traffic s.traffic_effective;
    ipc_version = v;
    pid = s.pid;
    rss_kib = s.rss_kib;
    cpu_jiffies = s.cpu_jiffies;
  })

abbrev pub no_fields : DaemonFields
no_fields = record {
  enforcement = none;
  observation = none;
  traffic = none;
  traffic_machine = none;
  traffic_user = none;
  traffic_effective = none;
  ipc_version = none;
  pid = none;
  rss_kib = none;
  cpu_jiffies = none;
}

-- `DaemonStatus::parse`
unfoldable pub parse_status : Text → Result DaemonStatus
parse_status frame = parse_fields daemon_field no_fields (lit "status") frame >>= daemon_of
