-- ===== src/Control.antt =====
-- crates/interfire-daemon/src/shared.rs: the modes of the daemon, in memory and in their files, and the
-- table that follows from them. The files of both modes stand in one directory, and each file call can
-- fail, which leaves its file.
pub mod Persistence
pub mod Agreement
mod Tests
use inter_fire.Prelude.{
  ℕ, ◌≡◌, Bool, true, false, not, ◌||◌, ◌&&◌, Option, none, some, List, [], ◌∷◌, any, Text, lit,
  if◌then◌else◌, eq_text, ◌==◌, nat_eq,
}
use inter_fire.Traffic.{
  TrafficPreference, unrestricted, is_blocked, wants_out, Directory, load, store_preference,
  machine_name, user_name, load_user_blocks, any_block_active, effective, label, EnforcementMode,
  paused, active, load_mode, store_mode,
}
use inter_fire.Nft.{
  Table, Runs, Outcome, done, failed, remove_table, install, install_composed, is_active,
}

-- `enforcement_code` and `enforcement_label`
pub data BindState : Type 0 where
  unbound nfqueue degraded : BindState

unfoldable pub enforcement_code : Text → BindState
enforcement_code name =
    if name == lit "nfqueue" then nfqueue else if name == lit "degraded" then degraded else unbound

unfoldable pub enforcement_label : BindState → Text
enforcement_label nfqueue = lit "nfqueue"
enforcement_label degraded = lit "degraded"
enforcement_label unbound = lit "none"

-- `observation_code` and `observation_label`
pub data Observation : Type 0 where
  attached unattached : Observation

unfoldable pub observation_code : Text → Observation
observation_code name = if name == lit "attached" then attached else unattached

unfoldable pub observation_label : Observation → Text
observation_label attached = lit "attached"
observation_label unattached = lit "degraded"

-- The fields of `Shared` that concern the modes, the directory of the files and the kernel's table
pub record Modes : Type 0 where
  pub directory : Directory
  pub paused : Bool
  pub machine : TrafficPreference
  pub bind_state : BindState
  pub table : Table

abbrev pub is_paused : EnforcementMode → Bool
is_paused EnforcementMode.paused = true
is_paused active = false

-- `Shared::new`
unfoldable pub new_modes : Directory → Table → Modes
new_modes directory table = record {
  directory = directory;
  paused = is_paused (load_mode directory);
  machine = load machine_name directory;
  bind_state = unbound;
  table = table;
}

-- `set_enforcement`
unfoldable pub set_enforcement : Text → Modes → Modes
set_enforcement name m = record m { bind_state = enforcement_code name }

-- `rules_mode`
abbrev pub rules_mode : Modes → EnforcementMode
rules_mode m = if m.paused then EnforcementMode.paused else active

abbrev pub is_bound : BindState → Bool
is_bound nfqueue = true
is_bound _ = false

-- The choice of `reapply_table`
unfoldable pub reapply :
    Runs
    → TrafficPreference
    → List (ℕ × TrafficPreference)
    → EnforcementMode
    → Bool
    → Table
    → Outcome × Table
reapply runs machine users rules queue_bound table =
    let rules_active = is_active rules in
    let blocks = is_blocked machine || any (λ u. is_blocked u.1) users in
    if not blocks && not rules_active
    then remove_table runs.delete table
    else if not blocks && rules_active
    then (if queue_bound then install runs table else remove_table runs.delete table)
    else install_composed runs
        (record {
          machine = machine;
          users = users;
          rules_active = rules_active && not (wants_out machine);
          queue_bound = queue_bound;
        })
        table

-- `reapply_table`
unfoldable pub reapply_table : Runs → Modes → Outcome × Modes
reapply_table runs m =
    let (outcome, table) =
      reapply runs m.machine (load_user_blocks m.directory) (rules_mode m) (is_bound m.bind_state)
        m.table in
    (outcome, record m { table = table })

-- What an operation meets: whether its file can be written, and the runs of `nft`
pub record Calls : Type 0 where
  pub stored : Bool
  pub runs : Runs

abbrev pub store_failed : Outcome
store_failed = failed (lit "io")

-- The step behind the `?` of a file call
abbrev pub after_store : Bool → Outcome × Modes → Modes → Outcome × Modes
after_store true next m = next
after_store false next m = (store_failed, m)

-- `pause`
unfoldable pub pause : Calls → Modes → Outcome × Modes
pause calls m =
    let (ok, directory) = store_mode calls.stored EnforcementMode.paused m.directory in
    after_store ok (reapply_table calls.runs (record m { directory = directory; paused = true })) m

-- `resume`
unfoldable pub resume : Calls → Modes → Outcome × Modes
resume calls m =
    let (ok, directory) = store_mode calls.stored active m.directory in
    if not (is_bound m.bind_state)
    then (failed (lit "NFQUEUE not bound; cannot start enforcement"), m)
    else after_store ok
        (reapply_table calls.runs (record m { directory = directory; paused = false })) m

pub data TrafficScope : Type 0 where
  of_machine of_user : TrafficScope

-- The two arms of `traffic_block` and `traffic_unblock`, which differ in the preference
unfoldable pub set_traffic : Calls → TrafficScope → TrafficPreference → ℕ → Modes → Outcome × Modes
set_traffic calls of_machine preference uid m =
    let (ok, directory) = store_preference calls.stored machine_name preference m.directory in
    after_store ok
      (reapply_table calls.runs (record m { directory = directory; machine = preference })) m
set_traffic calls of_user preference uid m =
    let (ok, directory) = store_preference calls.stored (user_name uid) preference m.directory in
    after_store ok (reapply_table calls.runs (record m { directory = directory })) m

-- `traffic_block`
unfoldable pub traffic_block :
    Calls → TrafficScope → TrafficPreference → ℕ → Modes → Outcome × Modes
unfolding set_traffic
traffic_block calls scope preference uid m =
    if not (is_blocked preference)
    then (failed (lit "traffic block requires out, in, or all"), m)
    else set_traffic calls scope preference uid m

-- `traffic_unblock`
unfoldable pub traffic_unblock : Calls → TrafficScope → ℕ → Modes → Outcome × Modes
unfolding set_traffic
traffic_unblock calls scope uid m = set_traffic calls scope unrestricted uid m

-- `enforcement`
unfoldable pub enforcement : Modes → Text
enforcement m = if m.paused then lit "paused" else enforcement_label m.bind_state

-- `traffic_effective`
unfoldable pub traffic_effective : ℕ → Modes → Text
traffic_effective uid m = label (effective m.machine (load (user_name uid) m.directory) uid)

-- `traffic`
unfoldable pub traffic : Modes → Text
traffic m =
    if is_blocked m.machine || any_block_active m.directory then lit "blocked" else lit "open"
