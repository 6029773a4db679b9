-- ===== src/Policy/Tests.antt =====
-- A connect of curl that the rules allow.
use inter_fire.Prelude.{◌≡◌, refl, none, some, [], ◌∷◌, lit, get, retain, text_eq}
use inter_fire.Rules.{RuleSet, allow, permanent, verdict_for, matches}
use inter_fire.Pending.{accept}
use inter_fire.Process.{ProcessIdentity, Procfs, get_identity}
use inter_fire.Prompts.{take_once_allow, consume_once_deny, expire}
use inter_fire.Dns.{hostname_for}
use inter_fire.Event.{TcpConnectEvent}
use inter_fire.Policy.{
  Tables, Readings, decide, decide_for, decide_attributed, decide_by_rules, ask_rules, attribute,
  connection_from,
}
use inter_fire.Policy.FailClosed.{IsAllowed, decide-accept}

abbrev pub curl : ProcessIdentity
curl = record {
  pid = 42;
  start_ticks = 99;
  executable = lit "/usr/bin/curl";
  command_line = [];
  uid = 1000;
  cgroup = [];
}

abbrev pub rules : RuleSet
rules =
    record {
      id = 1;
      executable = lit "/usr/bin/curl";
      protocol = none;
      direction = none;
      address = none;
      hostname = none;
      port = none;
      verdict = allow;
      scope = permanent;
    }
    ∷ []

abbrev pub procfs : Procfs
procfs pid = record { stat = none; exe = none; cmdline = none; status = none; cgroup = none }

abbrev pub tables : Tables
tables = record {
  cache = record { capacity = 1; entries = ((42, 99), curl) ∷ []; order = (42, 99) ∷ [] };
  prompts = inter_fire.Prompts.new 2 60;
  dns = inter_fire.Dns.new 2 300;
  recent = inter_fire.Recent.new 2 2;
}

abbrev pub readings : Readings
readings = record { allow = 1; allow_token = 1; deny = 1; name = 1; ask = 1; asked = 1 }

abbrev pub event : TcpConnectEvent
event = record {
  pid = 42;
  process_start_ticks = 99;
  destination_ipv4 = 3405803777;
  destination_port = 443;
  reserved = 0;
}

pub accepts : (decide readings procfs rules event tables).0.packet_verdict ≡ accept
unfolding decide decide_for decide_attributed decide_by_rules ask_rules attribute get_identity get
    take_once_allow consume_once_deny inter_fire.Prompts.expire inter_fire.Prompts.new
    connection_from verdict_for matches text_eq retain
accepts = refl

decide-accept_example :
    (identity : ProcessIdentity) × ((attribute procfs event tables.cache).0 ≡ some identity)
    × IsAllowed readings rules identity event tables
decide-accept_example = decide-accept readings procfs rules event tables accepts
