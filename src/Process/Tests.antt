-- ===== src/Process/Tests.antt =====
-- Runs of the attribution on the files of one process.
use inter_fire.Prelude.{
  ◌≡◌, refl, some, [], ◌∷◌, ◌++◌, arith, lit, Text, IsOrdered-empty, eq_nat, eq_text, eq_pair, get,
  split_whitespace, parse_uint, split_on, strip_prefix,
}
use inter_fire.Process.{
  ProcessIdentity, ProcessCache, ProcFiles, Procfs, ok, new, resolve, parse_start_ticks, identify,
  after_last, uid_line, parse_uid, parse_cmdline,
}
use inter_fire.Process.Laws.{IsValid}

abbrev fields : Text
fields = lit " S 1 42 42 0 -1 4194560 100 0 0 0 1 2 0 0 20 0 1 0 99 1000"

abbrev curl_files : ProcFiles
curl_files = record {
  stat = some (lit "42 (curl" ++ b')' ∷ fields);
  exe = some (lit "/usr/bin/curl");
  cmdline = some (lit "curl" ++ 0 ∷ lit "-s" ++ 0 ∷ []);
  status = some (lit "Name:\tcurl\nUid:\t1000\t1000\t1000\t1000\n");
  cgroup = some (lit "0::/user.slice\n");
}

abbrev procfs : Procfs
procfs pid = curl_files

abbrev curl : ProcessIdentity
curl = record {
  pid = 42;
  start_ticks = 99;
  executable = lit "/usr/bin/curl";
  command_line = lit "curl" ∷ lit "-s" ∷ [];
  uid = 1000;
  cgroup = lit "0::/user.slice\n";
}

resolves : resolve procfs 42 99 ≡ ok curl
unfolding resolve identify parse_start_ticks after_last parse_uid uid_line parse_cmdline
    split_whitespace parse_uint split_on strip_prefix
resolves = refl

abbrev one_process : ProcessCache
one_process = new 1

one_process-IsValid : IsValid one_process
unfolding new get
one_process-IsValid = record {
  positive = omega arith;
  bounded = omega arith;
  ordered = IsOrdered-empty;
  keyed = λ key identity h. cc;
}
