-- ===== src/Ctl/Arms.antt =====
-- crates/interfirectl/src/main.rs: the arms of the match over one argument to three.
use inter_fire.Prelude.{
  ℕ, ◌≡◌, ◌⊎◌, ◌∙◌, refl, sym, ap, subst, inl, inr, Bool, Bool-cases, true, false, not, ◌||◌, ◌&&◌,
  Option, none, some, List, [], ◌∷◌, Text, lit, eq_text, ◌==◌, text_eq, text_eq_iff, if◌then◌else◌,
  contains, strip_prefix, All, IsWord, all_values, literal-IsWord,
}
use inter_fire.Proto
use inter_fire.Proto.{
  Parsed, ok, parse, parse_words, parse_u64, parse_u16, is_scope, is_direction, with_number,
  with_numbers, since_of, malformed,
}
use inter_fire.Ctl.Stands.{
  Stands, both, named, named_and, rules_delete, audit_tail_of, audit_subscribe,
}
use inter_fire.Ctl.{Command, is_ok, is_empty, plain_commands, one, two, three}

-- A subscription from a number that is none
abbrev pub IsUnnumbered : List Text → List Text → Type 0
IsUnnumbered arguments words =
    (id : Text) × (since : Text) × (words ≡ lit "audit-subscribe" ∷ id ∷ since ∷ [])
    × (since_of (strip_prefix (lit "since=") since) ≡ none)
    × (arguments ≡ lit "audit" ∷ lit "subscribe" ∷ id ∷ since ∷ [])

-- The daemon takes the words for the request that the arguments stand for.
abbrev pub IsKnown : List Text → List Text → Type 0
IsKnown arguments words =
    (request : Proto.Request) × Stands arguments request
    × (parse_words (lit "v1" ∷ words) ≡ ok request)

abbrev pub IsFine : List Text → Command → Type 0
IsFine arguments none = Unit
IsFine arguments (some words) =
    All IsWord words × (IsKnown arguments words ⊎ IsUnnumbered arguments words)

pub choose-IsFine :
    (arguments : List Text) (b : Bool) (x y : Command)
    → (b ≡ true → IsFine arguments x)
    → IsFine arguments y
    → IsFine arguments (if b then x else y)
choose-IsFine arguments true x y f v = f refl
choose-IsFine arguments false x y f v = v

pub found : (o : Option ℕ) → is_ok o ≡ true → (n : ℕ) × (o ≡ some n)
found none h = cc
found (some n) h = (n, refl)

pub contains-All :
    (P : Text → Type 0) (word : Text) (words : List Text)
    → contains word words ≡ true
    → All P words
    → P word
contains-All P word [] h v = cc
contains-All P word (x ∷ words) h v = elim (Bool-cases (text_eq word x)) [
  | inl e ↦ subst P (sym ((text_eq_iff word x).0 e)) v.0
  | inr e ↦ contains-All P word words (sym (ap (λ b. b || contains word words) e) ∙ h) v.1
]

pub one-IsFine : (command : Text) → IsFine (command ∷ []) (one command)
unfolding all_values parse_words text_eq
one-IsFine command =
    choose-IsFine _ (contains command plain_commands) (some (command ∷ [])) none
      (λ h.
        contains-All (λ c. IsFine (c ∷ []) (some (c ∷ []))) command plain_commands h
          (
            ((literal-IsWord (lit "ping") refl, tt), inl (Proto.ping, Stands.ping, refl)),
            (
              ((literal-IsWord (lit "status") refl, tt), inl (Proto.status, Stands.status, refl)),
              (
                ((literal-IsWord (lit "pause") refl, tt), inl (Proto.pause, Stands.pause, refl)),
                (
                  (
                    (literal-IsWord (lit "resume") refl, tt),
                    inl (Proto.resume, Stands.resume, refl),
                  ),
                  tt,
                ),
              ),
            ),
          ))
      tt

pub two-IsFine : (a b : Text) → IsFine (a ∷ b ∷ []) (two a b)
unfolding all_values parse_words text_eq
two-IsFine a b =
    choose-IsFine _ (a == lit "rules" && b == lit "list") _ _
      (λ h. (
        (literal-IsWord (lit "rule-list") refl, tt),
        inl (Proto.rule_list, named a b (lit "rules") (lit "list") [] h Stands.rules_list, refl),
      ))
      (choose-IsFine _ (a == lit "prompts" && b == lit "list") _ _
        (λ h. (
          (literal-IsWord (lit "prompt-list") refl, tt),
          inl (
            Proto.prompt_list,
            named a b (lit "prompts") (lit "list") [] h Stands.prompts_list,
            refl,
          ),
        ))
        (choose-IsFine _ (a == lit "dns" && b == lit "list") _ _
          (λ h. (
            (literal-IsWord (lit "dns-list") refl, tt),
            inl (Proto.dns_list, named a b (lit "dns") (lit "list") [] h Stands.dns_list, refl),
          ))
          (choose-IsFine _ (a == lit "audit" && b == lit "tail") _ _
            (λ h. (
              (literal-IsWord (lit "audit-tail") refl, tt),
              inl (
                Proto.audit_tail 2000,
                named a b (lit "audit") (lit "tail") [] h Stands.audit_tail,
                refl,
              ),
            ))
            (choose-IsFine _ (a == lit "network" && b == lit "status") _ _
              (λ h. (
                (literal-IsWord (lit "network-status") refl, tt),
                inl (
                  Proto.network_status,
                  named a b (lit "network") (lit "status") [] h Stands.network_status,
                  refl,
                ),
              ))
              (choose-IsFine _ (a == lit "network" && b == lit "install") _ _
                (λ h. (
                  (literal-IsWord (lit "network-install") refl, tt),
                  inl (
                    Proto.network_install,
                    named a b (lit "network") (lit "install") [] h Stands.network_install,
                    refl,
                  ),
                ))
                (choose-IsFine _ (a == lit "network" && b == lit "remove") _ none
                  (λ h. (
                    (literal-IsWord (lit "network-remove") refl, tt),
                    inl (
                      Proto.network_remove,
                      named a b (lit "network") (lit "remove") [] h Stands.network_remove,
                      refl,
                    ),
                  ))
                  tt))))))

pub three-IsFine : (a b c : Text) → IsWord c → IsFine (a ∷ b ∷ c ∷ []) (three a b c)
unfolding all_values parse_words text_eq
three-IsFine a b c w =
    choose-IsFine _ (a == lit "rules" && (b == lit "delete" && is_ok (parse_u64 c))) _ _
      (λ h.
        let (n, e) = found (parse_u64 c) (both _ _ (both _ _ h).1).1 in
        (
          (literal-IsWord (lit "rule-delete") refl, (w, tt)),
          inl (
            Proto.rule_delete n,
            named_and a b (lit "rules") (lit "delete") (c ∷ []) _ h (rules_delete c n e),
            ap (λ o. with_number o Proto.rule_delete) e,
          ),
        ))
      (choose-IsFine _ (a == lit "audit" && (b == lit "tail" && is_ok (parse_u64 c))) _ _
        (λ h.
          let (n, e) = found (parse_u64 c) (both _ _ (both _ _ h).1).1 in
          (
            (literal-IsWord (lit "audit-tail") refl, (w, tt)),
            inl (
              Proto.audit_tail n,
              named_and a b (lit "audit") (lit "tail") (c ∷ []) _ h (audit_tail_of c n e),
              ap (λ o. with_number o Proto.audit_tail) e,
            ),
          ))
        (choose-IsFine _ (a == lit "audit" && (b == lit "subscribe" && not (is_empty c))) _ none
          (λ h. (
            (literal-IsWord (lit "audit-subscribe") refl, (w, tt)),
            inl (
              Proto.audit_subscribe c 0,
              named_and a b (lit "audit") (lit "subscribe") (c ∷ []) _ h (audit_subscribe c),
              refl,
            ),
          ))
          tt))
