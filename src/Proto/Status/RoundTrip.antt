-- ===== src/Proto/Status/RoundTrip.antt =====
-- What the clients read from the frames of the daemon's bodies.
use inter_fire.Prelude.{
  ℕ, ◌-◌, ◌^◌, ◌≡◌, ◌≤◌, refl, ap, ◌∙◌, false, some, List, [], ◌∷◌, Text, lit, All, IsWord, IsValue,
  all_values, all_values-IsValue, literal-IsWord, field-IsWord, IsLine, is_eol, is_whitespace, join,
  show_nat, show_nat-IsWord, parse_uint-show_nat, frame_of, trim_end, trim_end-line,
  split_whitespace, split_whitespace-join, strip_prefix, text_eq, arith,
}
use inter_fire.Nft.{NetworkTableState, missing, installed, incomplete}
use inter_fire.Proto.Client.{ok, ◌>>=◌, body_of, fields_of, parse_fields}
use inter_fire.Proto.Client.Lists.{frame_of-join, join-All}
use inter_fire.Proto.Response.{
  Response, StatusBody, status_words, network_words, summary_words, encode,
}
use inter_fire.Proto.Status.{
  StatsSummary, NetworkStatus, DaemonStatus, daemon_field, daemon_of, no_fields, no_network,
  parse_status, parse_network, parse_summary, summary_of, network_of, summary_field, network_field,
  no_summary, state_str, parse_state,
}

not_eol : (c : ℕ) → is_whitespace c ≡ false → is_eol c ≡ false
not_eol c h = ground arith

line_of_word : (s : Text) → IsValue s → IsLine s
line_of_word [] h = tt
line_of_word (c ∷ s) h = (not_eol c h.0, line_of_word s h.1)

lines_of_words : (words : List Text) → All IsWord words → All IsLine words
lines_of_words [] h = tt
lines_of_words (s ∷ words) h = (line_of_word s h.0.1, lines_of_words words h.1)

-- The words of a frame are those that were put there.
words-frame_of :
    (words : List Text) → All IsWord words → split_whitespace (trim_end (frame_of words)) ≡ words
words-frame_of words h =
    ap (λ t. split_whitespace (trim_end t)) (frame_of-join words)
    ∙ ap split_whitespace (
        trim_end-line (join (32 ∷ []) words)
          (join-All (λ c. is_eol c ≡ false) 32 words refl (lines_of_words words h)))
    ∙ split_whitespace-join words h

-- What a client makes of the body
abbrev pub daemon_status : StatusBody → DaemonStatus
daemon_status body = record {
  enforcement = body.enforcement;
  observation = body.observation;
  traffic = body.traffic;
  traffic_machine = body.traffic_machine;
  traffic_user = body.traffic_user;
  traffic_effective = body.traffic_effective;
  ipc_version = body.ipc_version;
  pid = some body.pid;
  rss_kib = some body.rss_kib;
  cpu_jiffies = some body.cpu_jiffies;
}

-- The values hold no white space, and the numbers fit their types.
pub record IsStatus (body : StatusBody) : Type 0 where
  pub enforcement : IsValue body.enforcement
  pub observation : IsValue body.observation
  pub traffic : IsValue body.traffic
  pub traffic_machine : IsValue body.traffic_machine
  pub traffic_user : IsValue body.traffic_user
  pub traffic_effective : IsValue body.traffic_effective
  pub ipc_version : body.ipc_version ≤ 2 ^ 16 - 1
  pub pid : body.pid ≤ 2 ^ 32 - 1
  pub rss_kib : body.rss_kib ≤ 2 ^ 64 - 1
  pub cpu_jiffies : body.cpu_jiffies ≤ 2 ^ 64 - 1

status_words-IsWord : (body : StatusBody) → IsStatus body → All IsWord (status_words body)
unfolding all_values
status_words-IsWord body w = (
  literal-IsWord (lit "v1") refl,
  (
    literal-IsWord (lit "status") refl,
    (
      field-IsWord (lit "enforcement=") body.enforcement refl w.enforcement,
      (
        field-IsWord (lit "observation=") body.observation refl w.observation,
        (
          field-IsWord (lit "traffic=") body.traffic refl w.traffic,
          (
            field-IsWord (lit "traffic_machine=") body.traffic_machine refl w.traffic_machine,
            (
              field-IsWord (lit "traffic_user=") body.traffic_user refl w.traffic_user,
              (
                field-IsWord (lit "traffic_effective=") body.traffic_effective refl
                    w.traffic_effective,
                (
                  field-IsWord (lit "ipc_version=") (show_nat body.ipc_version) refl
                      (show_nat-IsWord body.ipc_version),
                  (
                    field-IsWord (lit "pid=") (show_nat body.pid) refl (show_nat-IsWord body.pid),
                    (
                      field-IsWord (lit "rss_kib=") (show_nat body.rss_kib) refl
                          (show_nat-IsWord body.rss_kib),
                      (
                        field-IsWord (lit "cpu_jiffies=") (show_nat body.cpu_jiffies) refl
                            (show_nat-IsWord body.cpu_jiffies),
                        tt,
                      ),
                    ),
                  ),
                ),
              ),
            ),
          ),
        ),
      ),
    ),
  ),
)

-- The status goes through its frame: from the line that the daemon encodes a client reads the same ten fields, if no value holds white space and every number fits its type.
pub parse_status-encode :
    (body : StatusBody)
    → IsStatus body
    → parse_status (encode (Response.status body)) ≡ ok (daemon_status body)
unfolding parse_status parse_fields encode text_eq strip_prefix
parse_status-encode body w =
    ap
      (λ ws.
        (body_of (lit "status") ws >>= (λ b. fields_of daemon_field b no_fields)) >>= daemon_of)
      (words-frame_of (status_words body) (status_words-IsWord body w))
    ∙ rw
        (
          parse_uint-show_nat (2 ^ 16 - 1) body.ipc_version w.ipc_version,
          parse_uint-show_nat (2 ^ 32 - 1) body.pid w.pid,
          parse_uint-show_nat (2 ^ 64 - 1) body.rss_kib w.rss_kib,
          parse_uint-show_nat (2 ^ 64 - 1) body.cpu_jiffies w.cpu_jiffies,
        )
        refl

-- The values of a table hold no white space, and the queue is a u16.
pub record IsNetwork (body : NetworkStatus) : Type 0 where
  pub table : IsValue body.table
  pub queue : body.queue ≤ 2 ^ 16 - 1
  pub rule : IsValue body.rule

state_str-IsValue : (state : NetworkTableState) → IsValue (state_str state)
unfolding all_values
state_str-IsValue missing = all_values-IsValue (lit "missing") refl
state_str-IsValue installed = all_values-IsValue (lit "installed") refl
state_str-IsValue incomplete = all_values-IsValue (lit "incomplete") refl

parse_state-state_str : (state : NetworkTableState) → parse_state (state_str state) ≡ ok state
unfolding text_eq
parse_state-state_str missing = refl
parse_state-state_str installed = refl
parse_state-state_str incomplete = refl

network_words-IsWord : (body : NetworkStatus) → IsNetwork body → All IsWord (network_words body)
unfolding all_values
network_words-IsWord body w = (
  literal-IsWord (lit "v1") refl,
  (
    literal-IsWord (lit "network") refl,
    (
      field-IsWord (lit "table=") body.table refl w.table,
      (
        field-IsWord (lit "queue=") (show_nat body.queue) refl (show_nat-IsWord body.queue),
        (
          field-IsWord (lit "state=") (state_str body.state) refl (state_str-IsValue body.state),
          (field-IsWord (lit "rule=") body.rule refl w.rule, tt),
        ),
      ),
    ),
  ),
)

-- So does the state of the table.
pub parse_network-encode :
    (body : NetworkStatus)
    → IsNetwork body
    → parse_network (encode (Response.network body)) ≡ ok body
unfolding parse_network parse_fields encode text_eq strip_prefix
parse_network-encode body w =
    ap
      (λ ws.
        (body_of (lit "network") ws >>= (λ b. fields_of network_field b no_network)) >>= network_of)
      (words-frame_of (network_words body) (network_words-IsWord body w))
    ∙ rw (parse_uint-show_nat (2 ^ 16 - 1) body.queue w.queue, parse_state-state_str body.state)
        refl

-- The counters are of 64 bits, and the texts hold no white space.
pub record IsSummary (body : StatsSummary) : Type 0 where
  pub connections : body.connections ≤ 2 ^ 64 - 1
  pub denied : body.denied ≤ 2 ^ 64 - 1
  pub uptime_secs : body.uptime_secs ≤ 2 ^ 64 - 1
  pub rules : body.rules ≤ 2 ^ 64 - 1
  pub version : IsValue body.version
  pub git : IsValue body.git

summary_words-IsWord : (body : StatsSummary) → IsSummary body → All IsWord (summary_words body)
unfolding all_values
summary_words-IsWord body w = (
  literal-IsWord (lit "v1") refl,
  (
    literal-IsWord (lit "stats-summary") refl,
    (
      field-IsWord (lit "connections=") (show_nat body.connections) refl
          (show_nat-IsWord body.connections),
      (
        field-IsWord (lit "denied=") (show_nat body.denied) refl (show_nat-IsWord body.denied),
        (
          field-IsWord (lit "uptime_secs=") (show_nat body.uptime_secs) refl
              (show_nat-IsWord body.uptime_secs),
          (
            field-IsWord (lit "rules=") (show_nat body.rules) refl (show_nat-IsWord body.rules),
            (
              field-IsWord (lit "version=") body.version refl w.version,
              (field-IsWord (lit "git=") body.git refl w.git, tt),
            ),
          ),
        ),
      ),
    ),
  ),
)

-- And so does the summary of the statistics.
pub parse_summary-encode :
    (body : StatsSummary)
    → IsSummary body
    → parse_summary (encode (Response.stats_summary body)) ≡ ok body
unfolding parse_summary parse_fields encode text_eq strip_prefix
parse_summary-encode body w =
    ap
      (λ ws.
        (body_of (lit "stats-summary") ws >>= (λ b. fields_of summary_field b no_summary))
        >>= summary_of)
      (words-frame_of (summary_words body) (summary_words-IsWord body w))
    ∙ rw
        (
          parse_uint-show_nat (2 ^ 64 - 1) body.connections w.connections,
          parse_uint-show_nat (2 ^ 64 - 1) body.denied w.denied,
          parse_uint-show_nat (2 ^ 64 - 1) body.uptime_secs w.uptime_secs,
          parse_uint-show_nat (2 ^ 64 - 1) body.rules w.rules,
        )
        refl
