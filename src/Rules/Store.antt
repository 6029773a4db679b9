-- ===== src/Rules/Store.antt =====
-- The rules file: crates/interfire-rules/src/lib.rs, `RulesStore`. The TOML library is a parameter:
-- what it writes and reads is `Data`. The file system is the rules file, the temporary file beside it
-- and the outcome of each system call of one `save`.
pub mod Laws
use inter_fire.Prelude.{
  ℕ, ◌≡◌, refl, Bool, true, false, ◌||◌, not, Option, none, some, List, [], ◌∷◌, nat_eq,
  if◌then◌else◌, is_some,
}
use inter_fire.Rules.{Rule, RuleSet, RuleError, Inserted, insert}

pub record RulesDocument : Type 0 where
  pub schema_version : ℕ
  pub rules : List Rule

abbrev pub schema_version : ℕ
schema_version = 1

pub data PersistenceError : Type 0 where
  io parse serialize : PersistenceError
  unsupported_schema : ℕ → PersistenceError
  invalid_rule : RuleError → PersistenceError

-- The `toml` crate: it may refuse to write a document, and it reads back what it wrote. `prefix` is the
-- first bytes of a text, which a write that is cut short leaves.
pub record Toml : Type 1 where
  pub Data : Type 0
  pub to_string_pretty : RulesDocument → Option Data
  pub from_str : Data → Option RulesDocument
  pub prefix : ℕ → Data → Data
  pub from_str-to_string_pretty :
      (document : RulesDocument) (written : Data)
      → to_string_pretty document ≡ some written
      → from_str written ≡ some document

pub data Loaded : Type 0 where
  ok : RuleSet → Loaded
  err : PersistenceError → Loaded

pub data Saved : Type 0 where
  ok : Saved
  err : PersistenceError → Saved

-- Whether each system call of a save succeeds; for `write_all` with `sync_all`, the bytes that are in the
-- file when one of the two fails, if one does.
pub record SaveCalls : Type 0 where
  pub has_parent : Bool
  pub create_dir : Bool
  pub open_file : Bool
  pub write : Option ℕ
  pub rename : Bool
  pub chmod : Bool

abbrev pub document_of : RuleSet → RulesDocument
document_of rules = record { schema_version = schema_version; rules = rules }

module _ (toml : Toml) where
  open toml use {Data, to_string_pretty, from_str, prefix}

  -- `rules.toml`, and `.rules-<pid>.tmp` of the running daemon.
  pub record Disk : Type 0 where
    pub rules_file : Option Data
    pub temporary : Option Data

  -- The loop of `load` over the document's rules.
  pub insert_all : RuleSet → List Rule → Loaded
  insert_all rules [] = ok rules
  insert_all rules (rule ∷ rest) = elim (insert rule rules) [
    | Inserted.ok rules' ↦ insert_all rules' rest
    | Inserted.err error ↦ err (invalid_rule error)
  ]

  -- `RulesStore::load`; `readable` is whether an existing file can be read.
  unfoldable pub load : Bool → Disk → Loaded
  unfolding insert_all
  load readable disk = elim disk.rules_file [
    | none ↦ ok []
    | some written ↦
        if readable
        then (elim (from_str written) [
          | none ↦ err parse
          | some document ↦
              if nat_eq document.schema_version schema_version
              then insert_all [] document.rules
              else err (unsupported_schema document.schema_version)
        ])
        else err io
  ]

  -- The calls from the opened temporary file on. `create_new` refuses a file that is there.
  unfoldable pub replace_file : SaveCalls → Data → Disk → Saved × Disk
  replace_file calls written disk =
      if is_some disk.temporary || not calls.open_file then (err io, disk) else (elim calls.write [
        | some bytes ↦ (err io, record disk { temporary = some (prefix bytes written) })
        | none ↦
            if not calls.rename
            then (err io, record disk { temporary = some written })
            else if not calls.chmod
            then (err io, record { rules_file = some written; temporary = none })
            else (ok, record { rules_file = some written; temporary = none })
      ])

  -- `RulesStore::save`
  unfoldable pub save : SaveCalls → RuleSet → Disk → Saved × Disk
  unfolding replace_file
  save calls rules disk = elim (to_string_pretty (document_of rules)) [
    | none ↦ (err serialize, disk)
    | some written ↦
        if not calls.has_parent || not calls.create_dir
        then (err io, disk)
        else replace_file calls written disk
  ]
