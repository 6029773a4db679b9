-- ===== src/Nft.antt =====
-- crates/interfire-daemon/src/nft.rs: the scripts of the nftables table `inet interfire`, the calls of
-- `nft`, and the reading of its list. What `nft` does is an argument of each call: it can fail to
-- start, or exit with a status and an error text. A load that succeeds adds the script to the table,
-- and a delete that succeeds removes the table; one that fails leaves it.
pub mod Chains
pub mod Refinement
mod Tests
use inter_fire.Prelude.{
  ℕ, ◌≡◌, Bool, true, false, not, ◌||◌, ◌&&◌, Option, none, some, List, [], ◌∷◌, ◌++◌, map, Text,
  lit, lower, show_nat, trim, split_whitespace, join, has_infix, if◌then◌else◌, any, reverse,
  starts_with, eq_text, ◌==◌,
}
use inter_fire.Traffic.{
  TrafficPreference, unrestricted, out, is_blocked, wants_out, wants_in, EnforcementMode, active,
  paused,
}

abbrev pub nfqueue_num : ℕ
nfqueue_num = 4242

abbrev pub nft_table : Text
nft_table = lit "interfire"

abbrev pub nft_chain : Text
nft_chain = lit "output"

-- A text and the end of its line
abbrev pub line : Text → Text
line s = s ++ 10 ∷ []

abbrev pub queue_line : Text
queue_line = line (lit "    meta l4proto tcp ct state new queue num " ++ show_nat nfqueue_num)

abbrev pub drop_line : Text
drop_line = line (lit "    meta l4proto tcp ct state new drop")

abbrev pub user_line : ℕ → Text
user_line uid =
    line (lit "    meta skuid " ++ show_nat uid ++ lit " meta l4proto tcp ct state new drop")

abbrev pub loopback_out : Text
loopback_out = line (lit "    oifname \"lo\" accept")

abbrev pub loopback_in : Text
loopback_in = line (lit "    iifname \"lo\" accept")

abbrev pub established_line : Text
established_line = line (lit "ct state established,related accept")

abbrev pub table_line : Text
table_line = line (lit "table inet " ++ nft_table ++ lit " {")

abbrev pub output_head : Text
output_head =
    line (lit "  chain " ++ nft_chain ++ lit " {")
    ++ line (lit "type filter hook output priority filter; policy accept;")

abbrev pub input_head : Text
input_head =
    line (lit "  chain input {")
    ++ line (lit "type filter hook input priority filter; policy accept;")

abbrev pub chain_end : Text
chain_end = line (lit "  }")

abbrev pub table_end : Text
table_end = line (lit "}")

-- `owned_table_script`; a line that a backslash ends goes on behind the indentation of the next.
unfoldable pub owned_table_script : Text
owned_table_script =
    table_line
    ++ line (lit "chain " ++ nft_chain ++ lit " {")
    ++ line (lit "type filter hook output priority filter; policy accept;")
    ++ line (lit "oifname \"lo\" accept")
    ++ line (lit "meta l4proto tcp ct state new queue num " ++ show_nat nfqueue_num)
    ++ line (lit "}")
    ++ line (lit "}")

pub record TrafficCompose : Type 0 where
  pub machine : TrafficPreference
  pub users : List (ℕ × TrafficPreference)
  pub rules_active : Bool
  pub queue_bound : Bool

-- One of the two loops over the users: the lines it writes, and whether it writes any
unfoldable pub user_rules : (TrafficPreference → Bool) → List (ℕ × TrafficPreference) → Text × Bool
user_rules wants [] = ([], false)
user_rules wants ((uid, preference) ∷ users) =
    let (text, need) = user_rules wants users in
    if wants preference then (user_line uid ++ text, true) else (text, need)

-- What is pushed to `output_rules`, and `need_output`
unfoldable pub output_rules : TrafficCompose → Text × Bool
output_rules c =
    let (users, need) = user_rules wants_out c.users in
    if wants_out c.machine
    then (drop_line, true)
    else if c.rules_active && c.queue_bound
    then (users ++ queue_line, true)
    else (users, need)

-- What is pushed to `input_rules`, and `need_input`
unfoldable pub input_rules : TrafficCompose → Text × Bool
input_rules c = if wants_in c.machine then (drop_line, true) else user_rules wants_in c.users

-- `compose_traffic_script`
unfoldable pub compose_traffic_script : TrafficCompose → Text
compose_traffic_script c =
    let (out_text, need_output) = output_rules c in
    let (in_text, need_input) = input_rules c in
    if not need_output && not need_input
    then []
    else table_line
      ++ (if need_output
          then output_head ++ loopback_out ++ established_line ++ out_text ++ chain_end
          else [])
      ++ (if need_input
          then input_head ++ loopback_in ++ established_line ++ in_text ++ chain_end
          else [])
      ++ table_end

-- How a run of `nft` ends
pub data Run : Type 0 where
  not_started : Run
  exited : (success : Bool) → (stderr : Text) → Run

pub data Outcome : Type 0 where
  done : Outcome
  failed : Text → Outcome

-- `stderr_indicates_missing`
unfoldable pub stderr_indicates_missing : Text → Bool
stderr_indicates_missing stderr =
    let text = lower stderr in
    has_infix (lit "no such file") text
    || has_infix (lit "does not exist") text
    || has_infix (lit "not found") text

-- The table of the kernel: the scripts that were loaded into it, none if there is no table
abbrev pub Table : Type 0
Table = List Text

-- `remove`, with `finish_remove`
unfoldable pub remove_table : Run → Table → Outcome × Table
remove_table not_started table = (failed (lit "nft spawn failed"), table)
remove_table (exited true stderr) table = (done, [])
remove_table (exited false stderr) table =
    if stderr_indicates_missing stderr
    then (done, table)
    else (failed (lit "nft remove failed: " ++ trim stderr), table)

-- The load of a script by `nft -f -`, with the message of a failure
unfoldable pub load_script : Text → Run → Text → Table → Outcome × Table
load_script message not_started script table = (failed (lit "nft spawn failed"), table)
load_script message (exited true stderr) script table = (done, table ++ script ∷ [])
load_script message (exited false stderr) script table = (failed (message ++ trim stderr), table)

-- The two runs of an install: the delete, whose outcome is not looked at, and the load
pub record Runs : Type 0 where
  pub delete : Run
  pub load : Run

-- `install`, with `finish_install`
unfoldable pub install : Runs → Table → Outcome × Table
install runs table =
    load_script (lit "nft install failed: ") runs.load owned_table_script
      (remove_table runs.delete table).1

abbrev pub is_nil : Text → Bool
is_nil [] = true
is_nil _ = false

-- `install_composed`
unfoldable pub install_composed : Runs → TrafficCompose → Table → Outcome × Table
install_composed runs compose table =
    let script = compose_traffic_script compose in
    if is_nil script
    then remove_table runs.delete table
    else load_script (lit "nft traffic install failed: ") runs.load script
        (remove_table runs.delete table).1

-- `install_block`
unfoldable pub install_block : Runs → Table → Outcome × Table
install_block runs table =
    install_composed runs
      (record { machine = out; users = []; rules_active = false; queue_bound = false }) table

abbrev pub is_active : EnforcementMode → Bool
is_active active = true
is_active paused = false

abbrev pub is_out : TrafficPreference → Bool
is_out out = true
is_out _ = false

abbrev pub no_users : List (ℕ × TrafficPreference) → Bool
no_users [] = true
no_users _ = false

-- `apply_modes`, which only logs the outcome
unfoldable pub apply_modes :
    Runs → TrafficPreference → List (ℕ × TrafficPreference) → EnforcementMode → Bool → Table → Table
apply_modes runs machine users rules queue_bound table =
    let rules_active = is_active rules in
    let blocks = is_blocked machine || any (λ u. is_blocked u.1) users in
    if not blocks && not rules_active
    then (remove_table runs.delete table).1
    else if not blocks && rules_active
    then (if queue_bound then (install runs table).1 else (remove_table runs.delete table).1)
    else if is_out machine && no_users users
    then (install_block runs table).1
    else (install_composed runs
        (record {
          machine = machine;
          users = users;
          rules_active = rules_active && not (wants_out machine);
          queue_bound = queue_bound;
        })
        table).1

-- The state of the table that `status` reports
pub data NetworkTableState : Type 0 where
  missing installed incomplete : NetworkTableState

pub data ListError : Type 0 where
  absent : ListError
  list_failed : Text → ListError

pub data Listed : Type 0 where
  listing : Text → Listed
  unlisted : ListError → Listed

-- `list_owned_table`, with `interpret_list_output`
unfoldable pub list_owned_table : Run → Text → Listed
list_owned_table not_started stdout = unlisted (list_failed (lit "nft spawn failed"))
list_owned_table (exited true stderr) stdout = listing stdout
list_owned_table (exited false stderr) stdout =
    if stderr_indicates_missing stderr
    then unlisted absent
    else unlisted (list_failed (trim stderr))

abbrev ends_with : Text → Text → Bool
ends_with suffix s = starts_with (reverse suffix) (reverse s)

-- `classify_list_output`
unfoldable pub classify_list_output : Text → NetworkTableState × Text
classify_list_output stdout =
    let flattened = join (lit " ") (split_whitespace stdout) in
    let has_table = has_infix (lit "table inet " ++ nft_table) flattened in
    let has_queue = has_infix (lit "queue num " ++ show_nat nfqueue_num) flattened in
    let has_tcp_new =
      has_infix (lit "meta l4proto tcp") flattened
      && (has_infix (lit "ct state new") flattened || has_infix (lit "ct state") flattened) in
    let has_drop = has_infix (lit " drop") flattened || ends_with (lit "drop") flattened in
    let has_lo =
      has_infix (lit "oifname \"lo\"") flattened || has_infix (lit "oifname lo") flattened in
    if not has_table
    then (missing, lit "none")
    else if has_queue && has_tcp_new
    then (installed, lit "tcp_new_queue_4242")
    else if has_drop && has_tcp_new && has_lo
    then (installed, lit "tcp_new_drop")
    else (incomplete, lit "none")

-- `status`
unfoldable pub status : Run → Text → NetworkTableState × Text
unfolding classify_list_output
status run stdout = elim (list_owned_table run stdout) [
  | listing text ↦ classify_list_output text
  | unlisted error ↦ (missing, lit "none")
]
