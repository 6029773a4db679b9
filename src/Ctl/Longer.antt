-- ===== src/Ctl/Longer.antt =====
-- crates/interfirectl/src/main.rs: the arms over four arguments to six, and all of them together.
use inter_fire.Prelude.{
  ℕ, ◌≡◌, ◌⊎◌, ◌∙◌, refl, sym, ap, subst, inl, inr, Bool, Option-cases, true, not, ◌&&◌, Option,
  none, some, List, [], ◌∷◌, Text, lit, eq_text, ◌==◌, text_eq, strip_prefix, starts_with, All,
  IsWord, all_values, literal-IsWord,
}
use inter_fire.Proto
use inter_fire.Proto.{parse_words, parse_u64, parse_u16, with_number, with_numbers, since_of}
use inter_fire.Ctl.Stands.{
  Stands, both, words_tested, named_and, rules_add, prompts_answer, dns_note, dns_note_for,
  audit_subscribe_since, strip_prefix-eq-some,
}
use inter_fire.Ctl.{is_ok, is_empty, four, is_answer, is_answer_scope, five, six, untraffic}
use inter_fire.Ctl.Arms.{
  IsUnnumbered, IsKnown, IsFine, choose-IsFine, found, two-IsFine, three-IsFine,
}

numbered :
    (id since : Text) (n : ℕ)
    → since_of (strip_prefix (lit "since=") since) ≡ some n
    → Stands (lit "audit" ∷ lit "subscribe" ∷ id ∷ since ∷ []) (Proto.audit_subscribe id n)
numbered id since n e = elim (Option-cases (strip_prefix (lit "since=") since)) [
  | inl f ↦ absurd (none_ne_some (sym (ap since_of f) ∙ e))
  | inr (value, f) ↦
      subst (λ s. Stands (lit "audit" ∷ lit "subscribe" ∷ id ∷ s ∷ []) (Proto.audit_subscribe id n))
        (sym (strip_prefix-eq-some (lit "since=") since value f))
        (audit_subscribe_since id value n (sym (ap since_of f) ∙ e))
]
  where
    none_ne_some : none ≡ some n → ⊥
    none_ne_some k = cc

-- A subscription is understood or has no number.
subscription :
    (a b id since : Text) (more : Bool) (o : Option ℕ)
    → (a == lit "audit" && (b == lit "subscribe" && more)) ≡ true
    → since_of (strip_prefix (lit "since=") since) ≡ o
    → IsKnown (a ∷ b ∷ id ∷ since ∷ []) (lit "audit-subscribe" ∷ id ∷ since ∷ [])
      ⊎ IsUnnumbered (a ∷ b ∷ id ∷ since ∷ []) (lit "audit-subscribe" ∷ id ∷ since ∷ [])
unfolding parse_words text_eq
subscription a b id since more none h e =
    inr (
      id,
      since,
      refl,
      e,
      words_tested a b (lit "audit") (lit "subscribe") (id ∷ since ∷ []) more h,
    )
subscription a b id since more (some n) h e = inl (
  Proto.audit_subscribe id n,
  named_and a b (lit "audit") (lit "subscribe") (id ∷ since ∷ []) more h (numbered id since n e),
  ap (λ o. with_number o (Proto.audit_subscribe id)) e,
)

four-IsFine : (a b c d : Text) → IsWord c → IsWord d → IsFine (a ∷ b ∷ c ∷ d ∷ []) (four a b c d)
unfolding all_values parse_words text_eq
four-IsFine a b c d w x =
    choose-IsFine _ (a == lit "dns" && (b == lit "note" && not (is_empty c))) _ _
      (λ h. (
        (literal-IsWord (lit "dns-note") refl, (w, (x, tt))),
        inl (
          Proto.dns_note c d none,
          named_and a b (lit "dns") (lit "note") (c ∷ d ∷ []) _ h (dns_note c d),
          refl,
        ),
      ))
      (choose-IsFine _
        (a == lit "audit"
          && (b == lit "subscribe" && (not (is_empty c) && starts_with (lit "since=") d)))
        _ none
        (λ h. (
          (literal-IsWord (lit "audit-subscribe") refl, (w, (x, tt))),
          subscription a b c d _ _ h refl,
        ))
        tt)

five-IsFine :
    (a b c d e : Text)
    → IsWord c
    → IsWord d
    → IsWord e
    → IsFine (a ∷ b ∷ c ∷ d ∷ e ∷ []) (five a b c d e)
unfolding all_values parse_words text_eq
five-IsFine a b c d e w x y =
    choose-IsFine _
      (a == lit "prompts"
        && (b == lit "answer" && (is_ok (parse_u64 c) && (is_answer d && is_answer_scope e))))
      _ _
      (λ h.
        let (n, f) = found (parse_u64 c) (both _ _ (both _ _ (both _ _ h).1).1).0 in
        (
          (literal-IsWord (lit "prompt-answer") refl, (w, (x, (y, tt)))),
          inl (
            Proto.prompt_answer n d e,
            named_and a b (lit "prompts") (lit "answer") (c ∷ d ∷ e ∷ []) _ h
                (prompts_answer c d e n f),
            ap (λ o. with_number o (λ i. Proto.prompt_answer i d e)) f,
          ),
        ))
      (choose-IsFine _
        (a == lit "dns" && (b == lit "note" && (not (is_empty c) && is_ok (parse_u64 e)))) _ none
        (λ h.
          let (n, f) =
            found (parse_u64 e)
              (both (not (is_empty c)) _
                (both (b == lit "note") _ (both (a == lit "dns") _ h).1).1).1 in
          (
            (literal-IsWord (lit "dns-note") refl, (w, (x, (y, tt)))),
            inl (
              Proto.dns_note c d (some n),
              named_and a b (lit "dns") (lit "note") (c ∷ d ∷ e ∷ []) _ h (dns_note_for c d e n f),
              ap (λ o. with_number o (λ i. Proto.dns_note c d (some i))) f,
            ),
          ))
        tt)

six-IsFine :
    (a b c d e f : Text)
    → IsWord c
    → IsWord d
    → IsWord e
    → IsWord f
    → IsFine (a ∷ b ∷ c ∷ d ∷ e ∷ f ∷ []) (six a b c d e f)
unfolding all_values parse_words text_eq
six-IsFine a b c d e f w x y z =
    choose-IsFine _
      (a == lit "rules" && (b == lit "add" && (is_ok (parse_u64 c) && is_ok (parse_u16 f)))) _ none
      (λ h.
        let numbers = both _ _ (both _ _ (both _ _ h).1).1 in
        let (n, g) = found (parse_u64 c) numbers.0 in
        let (p, k) = found (parse_u16 f) numbers.1 in
        (
          (literal-IsWord (lit "rule-add") refl, (w, (x, (y, (z, tt))))),
          inl (
            Proto.rule_add n d e p,
            named_and a b (lit "rules") (lit "add") (c ∷ d ∷ e ∷ f ∷ []) _ h
                (rules_add c d e f n p g k),
            λ i. with_numbers (g i) (k i) (λ m q. Proto.rule_add m d e q),
          ),
        ))
      tt

pub untraffic-IsFine :
    (a b : Text) (rest : List Text) → All IsWord rest → IsFine (a ∷ b ∷ rest) (untraffic a b rest)
untraffic-IsFine a b [] w = two-IsFine a b
untraffic-IsFine a b (c ∷ []) w = three-IsFine a b c w.0
untraffic-IsFine a b (c ∷ d ∷ []) w = four-IsFine a b c d w.0 w.1.0
untraffic-IsFine a b (c ∷ d ∷ e ∷ []) w = five-IsFine a b c d e w.0 w.1.0 w.1.1.0
untraffic-IsFine a b (c ∷ d ∷ e ∷ f ∷ []) w = six-IsFine a b c d e f w.0 w.1.0 w.1.1.0 w.1.1.1.0
untraffic-IsFine a b (c ∷ d ∷ e ∷ f ∷ g ∷ rest) w = tt
