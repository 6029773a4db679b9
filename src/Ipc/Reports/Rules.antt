-- ===== src/Ipc/Reports/Rules.antt =====
-- The list of the rules, from the daemon to a client.
use inter_fire.Prelude.{
  ◌-◌, ◌^◌, ◌≡◌, ◌≤◌, refl, ap, ◌∙◌, false, map, lit, All, IsFree, IsLine, is_eol, nat_eq,
  splitn-join, show_nat, show_nat-IsFree, show_nat-IsLine, parse_uint-show_nat, inl, inr, arith,
}
use inter_fire.Rules.{Rule, RuleSet, Verdict, allow, deny, prompt}
use inter_fire.Proto.Client.{ok, ◌>>=◌, ok_or}
use inter_fire.Proto.Client.Lists.{join-All, join_two-ne-nil, All-mono, IsRow, parse_list-frame_of}
use inter_fire.Proto.Response.{encode}
use inter_fire.Proto.Rows.{RuleRow, rule_parts, parse_rule_row, parse_rules}
use inter_fire.Ipc.Reports.{rule_list, rule_text, rule_columns, debug_verdict, or_port}

-- What a client sees of a rule
abbrev pub row_of : Rule → RuleRow
row_of rule = record {
  id = rule.id;
  executable = rule.executable;
  verdict = debug_verdict rule.verdict;
  port = or_port rule.port;
}

-- The numbers fit their types, and the path stands on one line without commas and bars.
pub record IsListed (rule : Rule) : Type 0 where
  pub id : rule.id ≤ 2 ^ 64 - 1
  pub port : or_port rule.port ≤ 2 ^ 16 - 1
  pub line : IsLine rule.executable
  pub bar : IsFree b'|' rule.executable
  pub comma : IsFree b',' rule.executable

-- The words of the verdicts hold neither separator and stand on one line.
verdict-IsFree_bar : (verdict : Verdict) → IsFree b'|' (debug_verdict verdict)
verdict-IsFree_bar allow = (refl, (refl, (refl, (refl, (refl, tt)))))
verdict-IsFree_bar deny = (refl, (refl, (refl, (refl, tt))))
verdict-IsFree_bar prompt = (refl, (refl, (refl, (refl, (refl, (refl, tt))))))

verdict-IsFree_comma : (verdict : Verdict) → IsFree b',' (debug_verdict verdict)
verdict-IsFree_comma allow = (refl, (refl, (refl, (refl, (refl, tt)))))
verdict-IsFree_comma deny = (refl, (refl, (refl, (refl, tt))))
verdict-IsFree_comma prompt = (refl, (refl, (refl, (refl, (refl, (refl, tt))))))

pub verdict-IsLine : (verdict : Verdict) → IsLine (debug_verdict verdict)
verdict-IsLine allow = (refl, (refl, (refl, (refl, (refl, tt)))))
verdict-IsLine deny = (refl, (refl, (refl, (refl, tt))))
verdict-IsLine prompt = (refl, (refl, (refl, (refl, (refl, (refl, tt))))))

reads : (rule : Rule) → IsListed rule → parse_rule_row (rule_text rule) ≡ ok (row_of rule)
unfolding parse_rule_row
reads rule v =
    ap rule_parts (
      splitn-join b'|' (rule_columns rule)
        (
          show_nat-IsFree b'|' rule.id (inr (omega arith)),
          (v.bar, (verdict-IsFree_bar rule.verdict, tt)),
        )
        (λ e. cc))
    ∙ (λ i. do
      n ← ok_or (parse_uint-show_nat (2 ^ 64 - 1) rule.id v.id i)
      p ← ok_or (parse_uint-show_nat (2 ^ 16 - 1) (or_port rule.port) v.port i)
      ok (record {
        id = n;
        executable = rule.executable;
        verdict = debug_verdict rule.verdict;
        port = p;
      }))

pub rule_text-IsLine : (rule : Rule) → IsLine rule.executable → IsLine (rule_text rule)
rule_text-IsLine rule line =
    join-All (λ c. is_eol c ≡ false) b'|' (rule_columns rule) refl
      (
        show_nat-IsLine rule.id,
        (line, (verdict-IsLine rule.verdict, (show_nat-IsLine (or_port rule.port), tt))),
      )

text-IsRow : (rule : Rule) → IsListed rule → IsRow b',' parse_rule_row rule_text row_of rule
text-IsRow rule v = record {
  reads = reads rule v;
  there = join_two-ne-nil b'|' (show_nat rule.id) rule.executable _;
  line = rule_text-IsLine rule v.line;
  free =
      join-All (λ c. nat_eq c b',' ≡ false) b'|' (rule_columns rule) refl
        (
          show_nat-IsFree b',' rule.id (inl (omega arith)),
          (
            v.comma,
            (
              verdict-IsFree_comma rule.verdict,
              (show_nat-IsFree b',' (or_port rule.port) (inl (omega arith)), tt),
            ),
          ),
        );
}

-- A client sees the rules as they are: it reads, from the frame of the list, one row for each rule, in the order of the set, with its id, path, verdict and port, if the numbers fit their types and no path holds a comma, a bar or a line break.
pub parse_rules-rule_list :
    (rules : RuleSet)
    → All IsListed rules
    → parse_rules (encode (rule_list false rules)) ≡ ok (map row_of rules)
unfolding parse_rules encode rule_list
parse_rules-rule_list rules v =
    parse_list-frame_of b',' parse_rule_row rule_text row_of (lit "rules") rules
      (refl, (refl, (refl, (refl, (refl, tt))))) (refl, (refl, (refl, (refl, (refl, tt))))) refl
      (All-mono (IsRow b',' parse_rule_row rule_text row_of) IsListed text-IsRow rules v)
