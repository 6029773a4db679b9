-- ===== src/Rules/Tests.antt =====
-- Two rules of one program, and their file.
use inter_fire.Prelude.{
  sym, ap, ◌≡◌, ◌↔◌, ◌⊎◌, inl, inr, refl, true, false, Option, none, some, [], ◌∷◌, lit, In,
  starts_with,
}
use inter_fire.Rules.{
  Rule, RuleSet, Connection, Protocol, Direction, v4, allow, deny, prompt, permanent, matches,
  verdict_for,
}
use inter_fire.Rules.Verdicts.{IsTop, verdict_for_lem, verdict_for_deterministic}
use inter_fire.Rules.Edits.{IsValid}
use inter_fire.Rules.Store.{Toml, Disk, SaveCalls, Saved, RulesDocument, io, save, document_of}
use inter_fire.Rules.Store.Laws.{save_atomic, save_wedged}

abbrev any_curl : Rule
any_curl = record {
  id = 1;
  executable = lit "/usr/bin/curl";
  protocol = none;
  direction = none;
  address = none;
  hostname = none;
  port = none;
  verdict = allow;
  scope = permanent;
}

abbrev curl_mail : Rule
curl_mail = record any_curl { id = 2; port = some 25; verdict = deny }

abbrev two_rules : RuleSet
two_rules = any_curl ∷ curl_mail ∷ []

abbrev to_mail : Connection
to_mail = record {
  executable = lit "/usr/bin/curl";
  protocol = Protocol.tcp;
  direction = Direction.outbound;
  address = v4 203 0 113 1;
  hostname = none;
  port = 25;
}

two_rules-IsValid : IsValid two_rules
unfolding starts_with
two_rules-IsValid = record { unique = (refl, (refl, tt)); absolute = (refl, (refl, tt)) }

verdict_for_example :
    (((rule : Rule) → In rule two_rules → matches rule to_mail ≡ false)
      × (verdict_for two_rules to_mail ≡ prompt))
    ⊎ ((top : Rule) × IsTop to_mail top two_rules × (verdict_for two_rules to_mail ≡ top.verdict))
verdict_for_example = verdict_for_lem two_rules to_mail

swapped : (rule : Rule) → In rule two_rules ↔ In rule (curl_mail ∷ any_curl ∷ [])
swapped rule = (
  λ i. elim i [ inl e ↦ inr (inl e) | inr j ↦ elim j [ inl e ↦ inl e | inr k ↦ absurd k ] ],
  λ i. elim i [ inl e ↦ inr (inl e) | inr j ↦ elim j [ inl e ↦ inl e | inr k ↦ absurd k ] ],
)

verdict_for_deterministic_example :
    verdict_for two_rules to_mail ≡ verdict_for (curl_mail ∷ any_curl ∷ []) to_mail
verdict_for_deterministic_example =
    verdict_for_deterministic two_rules (curl_mail ∷ any_curl ∷ []) to_mail two_rules-IsValid.unique
      swapped

abbrev or_none : Option (Option RulesDocument) → Option RulesDocument
or_none none = none
or_none (some written) = written

-- A library that keeps the document as it is, and nothing of one that is cut short
abbrev pub plain : Toml
plain = record {
  Data = Option RulesDocument;
  to_string_pretty = λ document. some (some document);
  from_str = λ written. written;
  prefix = λ bytes written. none;
  from_str-to_string_pretty = λ document written h. ap or_none (sym h);
}

abbrev pub fine : SaveCalls
fine = record {
  has_parent = true;
  create_dir = true;
  open_file = true;
  write = none;
  rename = true;
  chmod = true;
}

abbrev pub blank : Disk plain
blank = record { rules_file = none; temporary = none }

-- A full disk after three bytes
abbrev full : SaveCalls
full = record fine { write = some 3 }

save_atomic_example :
    ((save plain full two_rules blank).1.rules_file ≡ blank.rules_file)
    ⊎ ((save plain full two_rules blank).1.rules_file
        ≡ plain.to_string_pretty (document_of two_rules))
save_atomic_example = save_atomic plain full two_rules blank

save_wedged_example :
    ((save plain full two_rules blank).0 ≡ Saved.err io)
    × (save plain fine [] (save plain full two_rules blank).1
        ≡ (Saved.err io, (save plain full two_rules blank).1))
save_wedged_example =
    save_wedged plain full fine two_rules [] blank (some (document_of two_rules))
      (some (document_of [])) refl refl refl refl refl refl refl
