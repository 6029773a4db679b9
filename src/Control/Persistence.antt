-- ===== src/Control/Persistence.antt =====
-- The modes in memory are those of the files, so that a restart changes nothing.
use inter_fire.Prelude.{
  ℕ, ◌≡◌, refl, ap, ◌∙◌, inl, inr, Bool, true, false, some, List, [], ◌∷◌, Text, lit, if◌then◌else◌,
  Bool-cases, get, insert, get-insert, eq_text, ◌==◌, text_eq,
}
use inter_fire.Traffic.{
  TrafficPreference, EnforcementMode, unrestricted, paused, active, is_blocked, Directory, load,
  load_mode, store_preference, store_mode, machine_name, mode_name, user_name, parse_or_open,
  mode_or_paused, content, line_of,
}
use inter_fire.Traffic.Modes.{load-store_preference, load_mode-store_mode}
use inter_fire.Nft.{Outcome, failed, Table}
use inter_fire.Control.{
  Modes, Calls, new_modes, reapply_table, after_store, pause, resume, set_traffic, traffic_block,
  traffic_unblock, TrafficScope, of_machine, of_user, is_paused, is_bound, set_enforcement,
}

pub record IsPersisted (m : Modes) : Type 0 where
  pub mode : is_paused (load_mode m.directory) ≡ m.paused
  pub traffic : load machine_name m.directory ≡ m.machine

-- Writing one file leaves what is loaded from another.
load-other :
    (name other text : Text) (directory : Directory)
    → (name == other) ≡ false
    → load other (insert name (some text) directory) ≡ load other directory
unfolding load
load-other name other text directory ne =
    ap (λ o. parse_or_open (content o))
      (get-insert name other (some text) directory
        ∙ ap (λ b. if b then some (some text) else get other directory) ne)

load_mode-other :
    (name text : Text) (directory : Directory)
    → (name == mode_name) ≡ false
    → load_mode (insert name (some text) directory) ≡ load_mode directory
unfolding load_mode
load_mode-other name text directory ne =
    ap (λ o. mode_or_paused (content o))
      (get-insert name mode_name (some text) directory
        ∙ ap (λ b. if b then some (some text) else get mode_name directory) ne)

user_name-machine : (uid : ℕ) → (user_name uid == machine_name) ≡ false
unfolding user_name text_eq
user_name-machine uid = refl

user_name-mode : (uid : ℕ) → (user_name uid == mode_name) ≡ false
unfolding user_name text_eq
user_name-mode uid = refl

machine-mode : (machine_name == mode_name) ≡ false
unfolding text_eq
machine-mode = refl

mode-machine : (mode_name == machine_name) ≡ false
unfolding text_eq
mode-machine = refl

reapply_table-IsPersisted :
    (calls : Calls) (m : Modes) → IsPersisted m → IsPersisted (reapply_table calls.runs m).1
unfolding reapply_table
reapply_table-IsPersisted calls m v = record { mode = v.mode; traffic = v.traffic }

after_store-IsPersisted :
    (ok : Bool) (next : Outcome × Modes) (m : Modes)
    → (ok ≡ true → IsPersisted next.1)
    → IsPersisted m
    → IsPersisted (after_store ok next m).1
after_store-IsPersisted true next m n v = n refl
after_store-IsPersisted false next m n v = v

set_mode-IsPersisted :
    (ok : Bool) (calls : Calls) (mode : EnforcementMode) (m : Modes)
    → IsPersisted m
    → IsPersisted
        (after_store
          (store_mode ok mode m.directory).0
          (reapply_table calls.runs
            (record m { directory = (store_mode ok mode m.directory).1; paused = is_paused mode }))
          m).1
unfolding store_mode
set_mode-IsPersisted false calls mode m v = v
set_mode-IsPersisted true calls mode m v =
    reapply_table-IsPersisted calls
      (record m { directory = (store_mode true mode m.directory).1; paused = is_paused mode })
      (record {
        mode = ap is_paused (load_mode-store_mode mode m.directory);
        traffic = load-other mode_name machine_name _ m.directory mode-machine ∙ v.traffic;
      })

set_traffic-IsPersisted :
    (ok : Bool) (calls : Calls) (scope : TrafficScope) (preference : TrafficPreference) (uid : ℕ)
    (m : Modes)
    → calls.stored ≡ ok
    → IsPersisted m
    → IsPersisted (set_traffic calls scope preference uid m).1
unfolding set_traffic store_preference
set_traffic-IsPersisted false calls of_machine preference uid m e v = rw e v
set_traffic-IsPersisted false calls of_user preference uid m e v = rw e v
set_traffic-IsPersisted true calls of_machine preference uid m e v = rw e (
    reapply_table-IsPersisted calls
      (record m {
        directory = insert machine_name (some (line_of preference)) m.directory;
        machine = preference;
      })
      (record {
        mode =
            ap is_paused
              (load_mode-other machine_name (line_of preference) m.directory machine-mode)
            ∙ v.mode;
        traffic = load-store_preference machine_name preference m.directory;
      }))
set_traffic-IsPersisted true calls of_user preference uid m e v = rw e (
    reapply_table-IsPersisted calls
      (record m { directory = insert (user_name uid) (some (line_of preference)) m.directory })
      (record {
        mode =
            ap is_paused (
              load_mode-other (user_name uid) (line_of preference) m.directory (user_name-mode uid))
            ∙ v.mode;
        traffic =
            load-other (user_name uid) machine_name (line_of preference) m.directory
              (user_name-machine uid)
            ∙ v.traffic;
      }))

-- What the operator and the queue thread ask for
pub data Operation : Type 0 where
  to_pause to_resume : Operation
  to_block : TrafficScope → TrafficPreference → ℕ → Operation
  to_unblock : TrafficScope → ℕ → Operation
  to_bind : Text → Operation

unfoldable pub run : Calls → Operation → Modes → Modes
run calls to_pause m = (pause calls m).1
run calls to_resume m = (resume calls m).1
run calls (to_block scope preference uid) m = (traffic_block calls scope preference uid m).1
run calls (to_unblock scope uid) m = (traffic_unblock calls scope uid m).1
run calls (to_bind name) m = set_enforcement name m

unfoldable pub run_all : List (Calls × Operation) → Modes → Modes
run_all [] m = m
run_all ((calls, operation) ∷ rest) m = run_all rest (run calls operation m)

resume-IsPersisted : (calls : Calls) (m : Modes) → IsPersisted m → IsPersisted (resume calls m).1
unfolding resume
resume-IsPersisted calls m v = elim (Bool-cases (is_bound m.bind_state)) [
  | inl e ↦ rw e (set_mode-IsPersisted calls.stored calls active m v)
  | inr e ↦ rw e v
]

traffic_block-IsPersisted :
    (calls : Calls) (scope : TrafficScope) (preference : TrafficPreference) (uid : ℕ) (m : Modes)
    → IsPersisted m
    → IsPersisted (traffic_block calls scope preference uid m).1
unfolding traffic_block
traffic_block-IsPersisted calls scope preference uid m v =
    elim (Bool-cases (is_blocked preference)) [
      | inl e ↦ rw e (set_traffic-IsPersisted calls.stored calls scope preference uid m refl v)
      | inr e ↦ rw e v
    ]

pub run-IsPersisted :
    (calls : Calls) (operation : Operation) (m : Modes)
    → IsPersisted m
    → IsPersisted (run calls operation m)
unfolding run pause traffic_unblock set_enforcement
run-IsPersisted calls to_pause m v = set_mode-IsPersisted calls.stored calls paused m v
run-IsPersisted calls to_resume m v = resume-IsPersisted calls m v
run-IsPersisted calls (to_block scope preference uid) m v =
    traffic_block-IsPersisted calls scope preference uid m v
run-IsPersisted calls (to_unblock scope uid) m v =
    set_traffic-IsPersisted calls.stored calls scope unrestricted uid m refl v
run-IsPersisted calls (to_bind name) m v = record { mode = v.mode; traffic = v.traffic }

run_all-IsPersisted :
    (steps : List (Calls × Operation)) (m : Modes) → IsPersisted m → IsPersisted (run_all steps m)
unfolding run_all
run_all-IsPersisted [] m v = v
run_all-IsPersisted ((calls, operation) ∷ steps) m v =
    run_all-IsPersisted steps (run calls operation m) (run-IsPersisted calls operation m v)

-- A restart changes no mode: after any sequence of operations from the start of the daemon, failed ones included, a daemon that starts from the files as they then are has the same pause and the same preference of the machine.
pub restart_lem :
    (directory : Directory) (steps : List (Calls × Operation)) (table table' : Table)
    → let m = run_all steps (new_modes directory table) in
      ((new_modes m.directory table').paused ≡ m.paused)
      × ((new_modes m.directory table').machine ≡ m.machine)
unfolding new_modes
restart_lem directory steps table table' =
    let v =
      run_all-IsPersisted steps (new_modes directory table)
        (unfold new_modes in record { mode = refl; traffic = refl }) in
    (v.mode, v.traffic)

-- Enforcement starts only with a bound queue: without one, `resume` fails and changes neither the files nor the modes nor the table.
pub resume_unbound :
    (calls : Calls) (m : Modes)
    → is_bound m.bind_state ≡ false
    → resume calls m ≡ (failed (lit "NFQUEUE not bound; cannot start enforcement"), m)
unfolding resume
resume_unbound calls m h = rw h refl
