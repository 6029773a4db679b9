-- ===== src/Ipc/Authorization.antt =====
-- Who may change what.
use inter_fire.Prelude.{
  ℕ, ◌≡◌, ◌≢◌, refl, false, some, Text, lit, nat_eq, nat_eq_iff, arith, eq_text, text_eq, inl, inr,
  Bool-cases,
}
use inter_fire.Rules.Store.{Toml}
use inter_fire.Ipc.{error, Request, Server, peer_may_mutate}
use inter_fire.Ipc.Mutations.{rule_add, rule_delete, prompt_answer}
use inter_fire.Ipc.Switches.{pause_request, resume_request, traffic_mutate, dns_note}
use inter_fire.Ipc.Serve.{
  Command, serve, add, delete, answer, note, network_install, network_remove, pause, resume, block,
  unblock,
}

module _ (toml : Toml) where
  -- A peer that is neither root nor the user of the daemon nor in the operator group changes nothing: each request that would is refused, and the rules, their file, the prompts, the names and the modes are as they were.
  pub serve_unauthorized :
      (request : Request) (command : Command) (s : Server toml)
      → peer_may_mutate request.host request.peer ≡ false
      → serve toml request command s ≡ (some (error (lit "unauthorized")), s)
  unfolding serve rule_add rule_delete prompt_answer pause_request resume_request traffic_mutate
      dns_note
  serve_unauthorized request (add id executable verdict port) s h = rw h refl
  serve_unauthorized request (delete id) s h = rw h refl
  serve_unauthorized request (answer id verdict scope) s h = rw h refl
  serve_unauthorized request (note hostname ipv4 ttl_secs) s h = rw h refl
  serve_unauthorized request network_install s h = rw h refl
  serve_unauthorized request network_remove s h = rw h refl
  serve_unauthorized request pause s h = rw h refl
  serve_unauthorized request resume s h = rw h refl
  serve_unauthorized request (block scope direction) s h = rw h refl
  serve_unauthorized request (unblock scope) s h = rw h refl

  -- Only root changes the traffic of the machine: every other peer, an operator included, is refused, and nothing changes.
  pub serve_machine :
      (request : Request) (uid : ℕ) (direction : Text) (s : Server toml)
      → request.peer ≡ some uid
      → uid ≢ 0
      → (serve toml request (block (lit "machine") direction) s
          ≡ (some (error (lit "unauthorized")), s))
        × (serve toml request (unblock (lit "machine")) s ≡ (some (error (lit "unauthorized")), s))
  unfolding serve traffic_mutate text_eq
  serve_machine request uid direction s peer other =
      let no : nat_eq uid 0 ≡ false = ground (arith, nat_eq_iff uid 0) in
      elim (Bool-cases (peer_may_mutate request.host request.peer)) [
        | inl may ↦ rw may (rw peer (rw no (refl, refl)))
        | inr may ↦ rw may (refl, refl)
      ]
