-- ===== src/Pending/Tests.antt =====
-- Runs of the pending table on small inputs.
use inter_fire.Prelude.{arith, get}
use inter_fire.Pending.{accept, DestKey, eq_dest_key, PendingTable, new, insert_verdict}
use inter_fire.Pending.Laws.{IsValid, insert_verdict-IsValid}

abbrev web : DestKey
web = record { ipv4 = 3405803777; port = 443 }

abbrev mail : DestKey
mail = record { ipv4 = 3405803777; port = 25 }

abbrev one_place : PendingTable
one_place = new 1 2000

one_place-IsValid : IsValid one_place
unfolding new get
one_place-IsValid = record {
  positive = omega arith;
  bounded = omega arith;
  covered = record { unique = tt; once = tt; covers = λ k h. cc };
}

abbrev filled : PendingTable
filled = insert_verdict 5 5 web accept one_place

filled-IsValid : IsValid filled
filled-IsValid = (insert_verdict-IsValid 5 5 web accept one_place one_place-IsValid).0
