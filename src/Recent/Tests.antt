-- ===== src/Recent/Tests.antt =====
-- A run of the recent destinations.
use inter_fire.Prelude.{arith, lit, IsOrdered-empty, eq_nat, eq_text, eq_pair, get}
use inter_fire.Recent.{RecentConnects, RecentDest, new}
use inter_fire.Recent.Laws.{IsValid}

abbrev small : RecentConnects
small = new 2 3

small-IsValid : IsValid small
unfolding new get
small-IsValid = record {
  positive = omega arith;
  positive_key = omega arith;
  bounded = omega arith;
  ordered = IsOrdered-empty;
  queues = λ key queue h. cc;
}

abbrev row : RecentDest
row = record { ipv4 = 16777343; port = 443; verdict = lit "allow" }
