-- ===== src/Dns/Tests.antt =====
-- Runs of the name cache on small inputs.
use inter_fire.Prelude.{
  ◌+◌, ◌≡◌, true, none, some, arith, if◌then◌else◌, leb, lit, lower, IsOrdered-empty, eq_nat,
}
use inter_fire.Dns.{DnsCache, new, observe, hostname_for, or_default}
use inter_fire.Dns.Laws.{IsValid, hostname_for-observe}

abbrev pub two_names : DnsCache
two_names = new 2 300

pub two_names-IsValid : IsValid two_names
unfolding new
two_names-IsValid = record {
  positive = omega arith;
  bounded = omega arith;
  ordered = IsOrdered-empty;
}

hostname_for-observe_example :
    ((observe 10 11 (lit "Example.COM") 1 (some 60) two_names).0 ≡ true)
    × ((hostname_for 90 1 (observe 10 11 (lit "Example.COM") 1 (some 60) two_names).1).0 ≡ (
        if leb (11 + or_default (some 60) two_names.default_ttl) 90
        then none
        else some (lower (lit "Example.COM"))))
hostname_for-observe_example =
    hostname_for-observe 10 11 90 (lit "Example.COM") 1 (some 60) two_names two_names-IsValid
      (unfold new in omega arith)
