-- ===== src/Rules/Store/Laws.antt =====
-- What a save leaves on disk and what the next load or save sees.
use inter_fire.Prelude.{
  ◌≡◌, refl, ◌⊎◌, ◌∙◌, sym, ap, Text, Bool, true, false, ◌||◌, none, some, List, [], ◌∷◌, ◌++◌,
  arith, append_assoc, append-nil, nat_eq, any, starts_with, All, is_some, not,
}
use inter_fire.Rules.{Rule, RuleSet, Inserted, insert, is_empty}
use inter_fire.Rules.Edits.{IsValid, IsAbsolute}
use inter_fire.Rules.Verdicts.{HasUniqueIds}
use inter_fire.Rules.Store.{
  Toml, Disk, SaveCalls, Saved, Loaded, io, ok, save, load, insert_all, document_of,
}

-- The ids of `rules` do not occur in `before`.
abbrev IsApart : RuleSet → List Rule → Type 0
IsApart before [] = Unit
IsApart before (rule ∷ rest) =
    (any (λ existing. nat_eq existing.id rule.id) before ≡ false) × IsApart before rest

any-append : (p : Rule → Bool) (xs ys : List Rule) → any p (xs ++ ys) ≡ (any p xs || any p ys)
any-append p [] ys = refl
any-append p (x ∷ xs) ys = ground (arith, any-append p xs ys)

IsApart-push :
    (before : RuleSet) (rule : Rule) (rest : List Rule)
    → IsApart before rest
    → any (λ existing. nat_eq existing.id rule.id) rest ≡ false
    → IsApart (before ++ rule ∷ []) rest
IsApart-push before rule [] a h = tt
IsApart-push before rule (x ∷ rest) a h = (
  ground (arith, any-append (λ existing. nat_eq existing.id x.id) before (rule ∷ []), a.0),
  IsApart-push before rule rest a.1 (ground arith),
)

IsApart-empty : (rules : List Rule) → IsApart [] rules
IsApart-empty [] = tt
IsApart-empty (x ∷ rest) = (refl, IsApart-empty rest)

starts-ne-empty : (t : Text) → starts_with (b'/' ∷ []) t ≡ true → is_empty t ≡ false
unfolding starts_with
starts-ne-empty [] h = cc
starts-ne-empty (c ∷ t) h = refl

insert_fresh :
    (rule : Rule) (rules : RuleSet)
    → IsAbsolute rule
    → any (λ existing. nat_eq existing.id rule.id) rules ≡ false
    → insert rule rules ≡ Inserted.ok (rules ++ rule ∷ [])
unfolding insert
insert_fresh rule rules a f = ground (arith, starts-ne-empty rule.executable a)

module _ (toml : Toml) where
  insert_all_valid :
      (before : RuleSet) (rest : List Rule)
      → IsApart before rest
      → HasUniqueIds rest
      → All IsAbsolute rest
      → insert_all toml before rest ≡ ok (before ++ rest)
  unfolding insert_all
  insert_all_valid before [] p u a = ap Loaded.ok (sym (append-nil before))
  insert_all_valid before (rule ∷ rest) p u a =
      rw (insert_fresh rule before a.0 p.0, insert_all)
        (insert_all_valid (before ++ rule ∷ []) rest (IsApart-push before rule rest p.1 u.0) u.1 a.1
          ∙ ap Loaded.ok (append_assoc before (rule ∷ []) rest))

  save-eq-ok :
      (calls : SaveCalls) (rules : RuleSet) (disk : Disk toml)
      → (save toml calls rules disk).0 ≡ Saved.ok
      → (written : toml.Data) × (toml.to_string_pretty (document_of rules) ≡ some written)
        × ((save toml calls rules disk).1 ≡ record { rules_file = some written; temporary = none })
  unfolding save
  save-eq-ok calls rules disk h = ground arith

  -- What a valid set is saved as is loaded as the same set, in the same order.
  pub load-save :
      (calls : SaveCalls) (rules : RuleSet) (disk : Disk toml)
      → IsValid rules
      → (save toml calls rules disk).0 ≡ ok
      → load toml true (save toml calls rules disk).1 ≡ ok rules
  unfolding load
  load-save calls rules disk v h =
      let (written, printed, after) = save-eq-ok calls rules disk h in
      rw after (
        rw (toml.from_str-to_string_pretty (document_of rules) written printed)
          (insert_all_valid [] rules (IsApart-empty rules) v.unique v.absolute))

  -- A save never leaves a partial rules file: it is the old one, or it holds the whole new document,
  -- even where the write of the temporary file was cut short.
  pub save_atomic :
      (calls : SaveCalls) (rules : RuleSet) (disk : Disk toml)
      → ((save toml calls rules disk).1.rules_file ≡ disk.rules_file)
        ⊎ ((save toml calls rules disk).1.rules_file ≡ toml.to_string_pretty (document_of rules))
  unfolding save
  save_atomic calls rules disk = ground arith

  -- A save that failed while writing or renaming leaves its temporary file, and then every later save
  -- of the process fails and changes nothing, whatever its rules and even if all its calls succeed.
  pub save_wedged :
      (calls later : SaveCalls) (rules rules' : RuleSet) (disk : Disk toml)
      (written written' : toml.Data)
      → toml.to_string_pretty (document_of rules) ≡ some written
      → toml.to_string_pretty (document_of rules') ≡ some written'
      → calls.has_parent ≡ true
      → calls.create_dir ≡ true
      → calls.open_file ≡ true
      → (is_some calls.write || not calls.rename) ≡ true
      → disk.temporary ≡ none
      → ((save toml calls rules disk).0 ≡ Saved.err io)
        × (save toml later rules' (save toml calls rules disk).1
            ≡ (Saved.err io, (save toml calls rules disk).1))
  unfolding save
  save_wedged calls later rules rules' disk written written' s s' p c o f t = ground arith
