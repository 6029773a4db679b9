-- ===== src/Ipc/Restart.antt =====
-- What is still there after a restart.
use inter_fire.Prelude.{
  ℕ, ◌≡◌, ◌≢◌, refl, Bool, true, false, not, Option, none, some, Text, lit, if◌then◌else◌, arith,
}
use inter_fire.Rules.{Rule, RuleSet, Scope, Inserted, insert, remove}
use inter_fire.Rules.Edits.{insert-IsValid, remove-IsValid}
use inter_fire.Rules.Store.{Toml, Saved, Loaded, save, load}
use inter_fire.Rules.Store.Laws.{load-save}
use inter_fire.Ipc.{
  Response, pong, error, Request, Server, peer_may_mutate, rule_verdict, tcp_rule, saved_response,
}
use inter_fire.Ipc.Mutations.{
  save_rules, add_inserted, add_with, delete_with, rule_add, rule_delete,
}
use inter_fire.Ipc.Serve.{
  Command, replied, serve, add, delete, answer, note, network_install, network_remove, pause,
  resume, block, unblock,
}
use inter_fire.Ipc.Invariant.{IsValid}

abbrev pub is_edit : Command → Bool
is_edit (add id executable verdict port) = true
is_edit (delete id) = true
is_edit _ = false

pub error_not_pong : (reason : Text) → error reason ≢ pong
error_not_pong reason h = ground (arith, h)

ok-saved_response : (saved : Saved) → saved_response saved ≡ pong → saved ≡ Saved.ok
ok-saved_response Saved.ok h = refl
ok-saved_response (Saved.err e) h = absurd (error_not_pong (lit "persistence_failed") h)

module _ (toml : Toml) where
  -- What a response of `pong` promises
  IsDurable : Response × Server toml → Type 0
  IsDurable (response, s) = response ≡ pong → load toml true s.disk ≡ Loaded.ok s.rules

  choose-IsDurable :
      (b : Bool) (reason : Text) (s : Server toml) (y : Response × Server toml)
      → IsDurable y
      → IsDurable (if b then (error reason, s) else y)
  unfolding IsDurable
  choose-IsDurable true reason s y w h = absurd (error_not_pong reason h)
  choose-IsDurable false reason s y w h = w h

  save_rules-IsDurable :
      (request : Request) (s : Server toml)
      → inter_fire.Rules.Edits.IsValid s.rules
      → IsDurable (save_rules toml request s)
  unfolding save_rules IsDurable
  save_rules-IsDurable request s v h =
      load-save toml request.save_calls s.rules s.disk v
        (ok-saved_response (save toml request.save_calls s.rules s.disk).0 h)

  add_inserted-IsDurable :
      (rule : Rule) (o : Inserted) (request : Request) (s : Server toml)
      → insert rule s.rules ≡ o
      → IsValid toml s
      → IsDurable (add_inserted toml o request s)
  unfolding IsDurable
  add_inserted-IsDurable rule (Inserted.err e) request s i v h =
      absurd (error_not_pong (lit "invalid_rule") h)
  add_inserted-IsDurable rule (Inserted.ok rules) request s i v h =
      save_rules-IsDurable request (record s { rules = rules })
        (insert-IsValid rule s.rules rules v.rules i).0 h

  add_with-IsDurable :
      (request : Request) (id : ℕ) (executable : Text) (port : ℕ)
      (verdict : Option inter_fire.Rules.Verdict) (s : Server toml)
      → IsValid toml s
      → IsDurable (add_with toml request id executable port verdict s)
  unfolding IsDurable
  add_with-IsDurable request id executable port none s v h =
      absurd (error_not_pong (lit "invalid_verdict") h)
  add_with-IsDurable request id executable port (some verdict) s v h =
      let rule = tcp_rule id executable port verdict Scope.permanent in
      add_inserted-IsDurable rule (insert rule s.rules) request s refl v h

  delete_with-IsDurable :
      (request : Request) (removed : Bool) (rules : RuleSet) (s : Server toml)
      → inter_fire.Rules.Edits.IsValid rules
      → IsDurable (delete_with toml request (rules, removed) s)
  unfolding IsDurable
  delete_with-IsDurable request true rules s w h =
      save_rules-IsDurable request (record s { rules = rules }) w h
  delete_with-IsDurable request false rules s w h = absurd (error_not_pong (lit "rule_not_found") h)

  replied-IsDurable :
      (r : Response × Server toml)
      → IsDurable r
      → (replied toml r).0 ≡ some pong
      → load toml true (replied toml r).1.disk ≡ Loaded.ok (replied toml r).1.rules
  unfolding IsDurable
  replied-IsDurable (response, s) w h = w (cc)

  -- An addition or a deletion of a rule that is answered with a pong survives a restart: what the daemon would then load from the disk, the rules file being readable, is exactly the set of rules it has in memory, in their order.
  pub serve_durable :
      (request : Request) (command : Command) (s : Server toml)
      → IsValid toml s
      → is_edit command ≡ true
      → (serve toml request command s).0 ≡ some pong
      → load toml true (serve toml request command s).1.disk
        ≡ Loaded.ok (serve toml request command s).1.rules
  unfolding serve rule_add rule_delete IsDurable
  serve_durable request (add id executable verdict port) s v edits =
      replied-IsDurable (rule_add toml request id executable verdict port s) (
        choose-IsDurable (not (peer_may_mutate request.host request.peer)) _ s _ (
          choose-IsDurable s.poisoned.rules _ s _
            (add_with-IsDurable request id executable port (rule_verdict verdict) s v)))
  serve_durable request (delete id) s v edits = replied-IsDurable (rule_delete toml request id s) (
      choose-IsDurable (not (peer_may_mutate request.host request.peer)) _ s _ (
        choose-IsDurable s.poisoned.rules _ s _ (
          delete_with-IsDurable request (remove id s.rules).1 (remove id s.rules).0 s
            (remove-IsValid id s.rules v.rules).0)))
  serve_durable request (answer id verdict scope) s v edits = absurd (ground (arith, edits))
  serve_durable request (note hostname ipv4 ttl) s v edits = absurd (ground (arith, edits))
  serve_durable request network_install s v edits = absurd (ground (arith, edits))
  serve_durable request network_remove s v edits = absurd (ground (arith, edits))
  serve_durable request pause s v edits = absurd (ground (arith, edits))
  serve_durable request resume s v edits = absurd (ground (arith, edits))
  serve_durable request (block scope direction) s v edits = absurd (ground (arith, edits))
  serve_durable request (unblock scope) s v edits = absurd (ground (arith, edits))
