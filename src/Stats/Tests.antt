-- ===== src/Stats/Tests.antt =====
-- A run of the statistics.
use inter_fire.Prelude.{arith, lit, IsOrdered-empty, eq_nat, eq_text, eq_pair, get}
use inter_fire.Stats.{StatsStore, ConnectStats, new}
use inter_fire.Stats.Laws.{IsValid}

abbrev fresh : StatsStore
fresh = new 0

fresh-IsValid : IsValid fresh
unfolding new get
fresh-IsValid = record {
  hosts = record { bounded = omega arith; ordered = IsOrdered-empty; counted = λ k c h. cc };
  procs = record { bounded = omega arith; ordered = IsOrdered-empty; counted = λ k c h. cc };
  addrs = record { bounded = omega arith; ordered = IsOrdered-empty; counted = λ k c h. cc };
  ports = record { bounded = omega arith; ordered = IsOrdered-empty; counted = λ k c h. cc };
  users = record { bounded = omega arith; ordered = IsOrdered-empty; counted = λ k c h. cc };
  fewer_denied = omega arith;
  within = omega arith;
}

abbrev hit : ConnectStats
hit = record {
  executable = lit "/usr/bin/curl";
  host = lit "example.com";
  ipv4 = lit "203.0.113.1";
  port = 443;
  uid = 1000;
  verdict = lit "deny";
}
