-- ===== src/Ipc/Reports/Tests.antt =====
-- The lists of a daemon with two rules and one process.
use inter_fire.Prelude.{
  ◌≡◌, refl, false, none, some, [], ◌∷◌, map, lit, arith, none_satisfies, is_eol, nat_eq, get,
  eq_nat, eq_pair, join, show_nat, starts_with, text_eq,
}
use inter_fire.Rules.{Rule, Scope, deny, allow}
use inter_fire.Recent.{RecentConnects, for_process}
use inter_fire.Process.{ProcessIdentity, ProcessCache}
use inter_fire.Proto.{malformed}
use inter_fire.Proto.Client.{ok, err}
use inter_fire.Proto.Response.{encode}
use inter_fire.Proto.Rows.{ProcessRow, parse_rules, parse_processes}
use inter_fire.Ipc.Reports.{rule_list, process_list}
use inter_fire.Ipc.Reports.Rules.{row_of, parse_rules-rule_list}
use inter_fire.Ipc.Reports.Unreadable.{parse_rules-comma}
use inter_fire.Ipc.Reports.Processes.{IsObserved, parse_processes-process_list}

abbrev curl : Rule
curl = record {
  id = 1;
  executable = lit "/usr/bin/curl";
  protocol = none;
  direction = none;
  address = none;
  hostname = none;
  port = some 443;
  verdict = allow;
  scope = Scope.permanent;
}

abbrev mail : Rule
mail = record curl { id = 2; executable = lit "/opt/my mail;1"; port = none; verdict = deny }

abbrev comma : Rule
comma = record curl { executable = lit "/opt/a,b" }

parse_rules-rule_list_example :
    parse_rules (encode (rule_list false (curl ∷ mail ∷ []))) ≡ ok (map row_of (curl ∷ mail ∷ []))
parse_rules-rule_list_example = parse_rules-rule_list (curl ∷ mail ∷ []) (
  record {
    id = omega arith;
    port = omega arith;
    line = none_satisfies is_eol (lit "/usr/bin/curl") refl;
    bar = none_satisfies (λ c. nat_eq c b'|') (lit "/usr/bin/curl") refl;
    comma = none_satisfies (λ c. nat_eq c b',') (lit "/usr/bin/curl") refl;
  },
  (
    record {
      id = omega arith;
      port = omega arith;
      line = none_satisfies is_eol (lit "/opt/my mail;1") refl;
      bar = none_satisfies (λ c. nat_eq c b'|') (lit "/opt/my mail;1") refl;
      comma = none_satisfies (λ c. nat_eq c b',') (lit "/opt/my mail;1") refl;
    },
    tt,
  ),
)

parse_rules-comma_example :
    parse_rules (encode (rule_list false (comma ∷ curl ∷ []))) ≡ err malformed
parse_rules-comma_example =
    parse_rules-comma comma (curl ∷ []) (lit "/opt/a") (lit "b") refl
      (none_satisfies (λ c. nat_eq c b',') (lit "/opt/a") refl)
      (none_satisfies (λ c. nat_eq c b'|') (lit "/opt/a") refl)
      (
        none_satisfies is_eol (lit "/opt/a,b") refl,
        (none_satisfies is_eol (lit "/usr/bin/curl") refl, tt),
      )

abbrev process : ProcessIdentity
process = record {
  pid = 42;
  start_ticks = 99;
  executable = lit "/usr/bin/curl";
  command_line = lit "curl" ∷ lit "a|b;c" ∷ [];
  uid = 1000;
  cgroup = lit "0::/user.slice";
}

abbrev cache : ProcessCache
cache = record { capacity = 4; entries = ((42, 99), process) ∷ []; order = (42, 99) ∷ [] }

abbrev recent : RecentConnects
recent = record {
  capacity_keys = 4;
  per_key = 2;
  order = (42, 99) ∷ [];
  entries = ((42, 99), record { ipv4 = 2130706433; port = 443; verdict = lit "allow" } ∷ []) ∷ [];
}

process-IsObserved : IsObserved recent process
unfolding for_process get
process-IsObserved = record {
  pid = omega arith;
  start_ticks = omega arith;
  uid = omega arith;
  executable = none_satisfies is_eol (lit "/usr/bin/curl") refl;
  command_line =
      (none_satisfies is_eol (lit "curl") refl, (none_satisfies is_eol (lit "a|b;c") refl, tt));
  verdicts = (
    (
      none_satisfies is_eol (lit "allow") refl,
      none_satisfies (λ c. nat_eq c b'|') (lit "allow") refl,
      none_satisfies (λ c. nat_eq c b';') (lit "allow") refl,
    ),
    tt,
  );
}

-- The destination is on the machine itself.
abbrev seen : ProcessRow
seen = record {
  pid = 42;
  start_ticks = 99;
  uid = 1000;
  executable = lit "/usr/bin/curl";
  cmdline = lit "curl a|b;c";
  verdict = lit "prompt";
  ports = lit "127.0.0.1:443/allow";
}

parse_processes-process_list_example :
    parse_processes (encode (process_list false false false (mail ∷ []) recent cache))
    ≡ ok (seen ∷ [])
unfolding get join show_nat starts_with text_eq inter_fire.Rules.verdict_for
    inter_fire.Rules.matches
parse_processes-process_list_example =
    parse_processes-process_list (mail ∷ []) recent cache (process ∷ []) refl (refl, tt)
      (process-IsObserved, tt)
