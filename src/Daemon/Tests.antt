-- ===== src/Daemon/Tests.antt =====
-- The connect of curl, and its first packet.
use inter_fire.Prelude.{ℕ, ◌≡◌, ◌<◌, refl, ◌∙◌, false, some, List, [], ◌∷◌, arith, get, retain}
use inter_fire.Pending.{Verdict, accept, DestKey, insert_verdict, take, expire, expire_loop}
use inter_fire.Pending.Laws.{IsValid}
use inter_fire.Packet.{tcp_destination}
use inter_fire.Audit.{done}
use inter_fire.Policy.{decide, decide_attributed, attribute}
use inter_fire.Policy.Tests.{rules, procfs, tables, readings, event, accepts}
use inter_fire.Daemon.{Shared, Locks, World, handle_event, lookup_verdict}
use inter_fire.Daemon.Connect.{IsFound, lookup_verdict-accept, connect_verdict}

abbrev clean : Locks
clean = record {
  rules = false;
  process_cache = false;
  prompts = false;
  dns = false;
  recent = false;
  pending = false;
  stats = false;
  audit = false;
}

abbrev idle : Shared
idle = record {
  rules = rules;
  tables = tables;
  pending = inter_fire.Pending.new 4 2000;
  stats = inter_fire.Stats.new 0;
  audit = record {
    max_bytes = 64;
    max_records = 2;
    next_seq = 1;
    records = [];
    subscribers = [];
    file = [];
  };
  poisoned = clean;
}

abbrev world : World
world = record {
  procfs = procfs;
  readings = readings;
  inserted = 1;
  inserted_at = 1;
  written = done;
}

-- The SYN packet to 203.0.113.1:443
abbrev syn : List ℕ
syn =
    69 ∷ 0 ∷ 0 ∷ 40 ∷ 0 ∷ 0 ∷ 0 ∷ 0 ∷ 64 ∷ 6 ∷ 0 ∷ 0 ∷ 10 ∷ 0 ∷ 0 ∷ 2 ∷ 203 ∷ 0 ∷ 113 ∷ 1 ∷ 200 ∷ 0
    ∷ 1 ∷ 187 ∷ 0 ∷ 0 ∷ []

idle-IsValid : IsValid idle.pending
unfolding inter_fire.Pending.new get
idle-IsValid = record {
  positive = omega arith;
  bounded = omega arith;
  covered = record { unique = tt; once = tt; covers = λ k h. cc };
}

parsed : tcp_destination syn ≡ some (decide readings procfs rules event tables).0.key
unfolding tcp_destination decide decide_attributed attribute inter_fire.Process.get_identity get
    inter_fire.Policy.decide_for retain inter_fire.Prompts.take_once_allow
    inter_fire.Prompts.consume_once_deny inter_fire.Prompts.expire inter_fire.Prompts.new
    inter_fire.Policy.decide_by_rules
parsed = refl

connect_verdict_example :
    (lookup_verdict syn (λ _. 900) (λ _. handle_event world event idle)).0
    ≡ (decide readings procfs rules event tables).0.packet_verdict
connect_verdict_example =
    connect_verdict world event idle syn (λ _. 900) idle-IsValid refl refl parsed
      (unfold inter_fire.Pending.new in omega arith)

lookup_verdict-accept_example :
    (key : DestKey) × (tcp_destination syn ≡ some key)
    × (i : ℕ) × (i < 50)
    × IsFound key (λ _. 900) (λ _. handle_event world event idle) i
lookup_verdict-accept_example =
    lookup_verdict-accept syn (λ _. 900) (λ _. handle_event world event idle)
      (connect_verdict world event idle syn (λ _. 900) idle-IsValid refl refl parsed
          (unfold inter_fire.Pending.new in omega arith)
        ∙ accepts)
