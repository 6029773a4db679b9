-- ===== src/Ipc/Reports/Unreadable.antt =====
-- A path that breaks the list of the rules.
use inter_fire.Prelude.{
  ℕ, ◌≡◌, ◌≢◌, refl, ap, ◌∙◌, sym, false, none, some, Option, List, [], ◌∷◌, ◌++◌, append_assoc,
  append-nil, map, Text, lit, All, IsFree, IsLine, is_eol, join, split_on, split_on-append,
  split_once-append, split_once-free, splitn, show_nat, show_nat-IsFree, All-append, nat_eq, inl,
  inr, arith,
}
use inter_fire.Rules.{Rule, RuleSet}
use inter_fire.Proto.{malformed}
use inter_fire.Proto.Client.{err, collect, rows_of, Result, ◌>>=◌, ok}
use inter_fire.Proto.Client.Lists.{join-All, All-map, parse_list-payload, rows_of-text}
use inter_fire.Proto.Response.{encode}
use inter_fire.Proto.Rows.{RuleRow, rule_parts, parse_rule_row, parse_rules}
use inter_fire.Ipc.Reports.{rule_list, rule_text, debug_verdict, or_port}
use inter_fire.Ipc.Reports.Rules.{rule_text-IsLine}

-- The first of some rows, and what follows it
join-front :
    (sep : ℕ) (s : Text) (rows : List Text)
    → (rest : Text) × (join (sep ∷ []) (s ∷ rows) ≡ s ++ rest)
unfolding join
join-front sep s [] = ([], sym (append-nil s))
join-front sep s (t ∷ rows) = (sep ∷ join (sep ∷ []) (t ∷ rows), refl)

-- A row of two columns is too short.
short_row :
    (id path : Text)
    → IsFree b'|' id
    → IsFree b'|' path
    → parse_rule_row (id ++ (b'|' ∷ path)) ≡ err malformed
unfolding parse_rule_row splitn
short_row id path h k =
    ap (next (id ++ (b'|' ∷ path))) (split_once-append b'|' id path h)
    ∙ ap (last id path) (split_once-free b'|' path k)
  where
    last : Text → Text → Option (Text × Text) → Result RuleRow
    last id path o =
        rule_parts
          (id ∷ (elim o [ none ↦ path ∷ [] | some (before, after) ↦ before ∷ splitn 2 b'|' after ]))

    next : Text → Option (Text × Text) → Result RuleRow
    next s o =
        rule_parts (elim o [ none ↦ s ∷ [] | some (before, after) ↦ before ∷ splitn 3 b'|' after ])

-- The text of such a rule up to the comma, and what follows
comma-front :
    (rule : Rule) (before after : Text)
    → rule.executable ≡ before ++ (b',' ∷ after)
    → (rest : Text) × (rule_text rule ≡ (show_nat rule.id ++ (b'|' ∷ before)) ++ (b',' ∷ rest))
unfolding join
comma-front rule before after e =
    let tail =
      b'|' ∷ join (lit "|") (debug_verdict rule.verdict ∷ show_nat (or_port rule.port) ∷ []) in
    (
      after ++ tail,
      ap (λ x. show_nat rule.id ++ (b'|' ∷ (x ++ tail))) e
          ∙ ap (λ x. show_nat rule.id ++ (b'|' ∷ x)) (append_assoc before (b',' ∷ after) tail)
          ∙ sym (append_assoc (show_nat rule.id) (b'|' ∷ before) (b',' ∷ (after ++ tail))),
    )

append_cons-ne-nil : (s t : Text) (c : ℕ) → s ++ (c ∷ t) ≢ []
append_cons-ne-nil [] t c = λ e. cc
append_cons-ne-nil (d ∷ s) t c = λ e. cc

-- One path with a comma makes the whole list unreadable: if the first rule's path has one, behind a part without bars, then the client finds the frame of the rules malformed, whatever the other rules are as long as no path of the set breaks the line, and sees none of them.
pub parse_rules-comma :
    (rule : Rule) (rules : RuleSet) (before after : Text)
    → rule.executable ≡ before ++ (b',' ∷ after)
    → IsFree b',' before
    → IsFree b'|' before
    → All (λ r. IsLine r.executable) (rule ∷ rules)
    → parse_rules (encode (rule_list false (rule ∷ rules))) ≡ err malformed
unfolding parse_rules encode rule_list
parse_rules-comma rule rules before after e comma bar lines =
    let texts = map rule_text (rule ∷ rules) in
    let payload = join (lit ",") texts in
    let first = show_nat rule.id ++ (b'|' ∷ before) in
    let (end, head) = comma-front rule before after e in
    let (more, front) = join-front b',' (rule_text rule) (map rule_text rules) in
    let split : payload ≡ first ++ (b',' ∷ (end ++ more)) =
      front ∙ ap (λ x. x ++ more) head ∙ append_assoc first (b',' ∷ end) more in
    parse_list-payload b',' parse_rule_row (lit "rules") payload
      (refl, (refl, (refl, (refl, (refl, tt))))) (refl, (refl, (refl, (refl, (refl, tt)))))
      (join-All (λ c. is_eol c ≡ false) b',' texts refl
        (All-map IsLine (λ r. IsLine r.executable) rule_text rule_text-IsLine (rule ∷ rules) lines))
    ∙ ap (rows_of b',' parse_rule_row) split
    ∙ rows_of-text b',' parse_rule_row (first ++ (b',' ∷ (end ++ more)))
        (append_cons-ne-nil first (end ++ more) b',')
    ∙ ap (collect parse_rule_row) (
        split_on-append b',' first (end ++ more) (
          All-append (λ c. nat_eq c b',' ≡ false) (show_nat rule.id) (b'|' ∷ before)
            (show_nat-IsFree b',' rule.id (inl (omega arith))) (refl, comma)))
    ∙ ap
        (λ r.
          r >>= (λ x. collect parse_rule_row (split_on b',' (end ++ more)) >>= (λ xs. ok (x ∷ xs))))
        (short_row (show_nat rule.id) before (show_nat-IsFree b'|' rule.id (inr (omega arith))) bar)
