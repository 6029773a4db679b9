-- ===== src/Ipc/Serve.antt =====
-- crates/interfire-daemon/src/ipc.rs: the arms of `dispatch` that change the daemon.
use inter_fire.Prelude.{List, [], ◌∷◌, ℕ, Option, none, some, Text, lit}
use inter_fire.Rules.Store.{Toml}
use inter_fire.Ipc.{Response, Request, Server}
use inter_fire.Ipc.Mutations.{rule_add, rule_delete, prompt_answer}
use inter_fire.Ipc.Switches.{pause_request, resume_request, traffic_mutate, dns_note}

-- The requests of the protocol that change the daemon
pub data Command : Type 0 where
  add : (id : ℕ) → (executable : Text) → (verdict : Text) → (port : ℕ) → Command
  delete : (id : ℕ) → Command
  answer : (id : ℕ) → (verdict : Text) → (scope : Text) → Command
  note : (hostname : Text) → (ipv4 : Text) → (ttl_secs : Option ℕ) → Command
  network_install network_remove pause resume : Command
  block : (scope : Text) → (direction : Text) → Command
  unblock : (scope : Text) → Command

module _ (toml : Toml) where
  abbrev pub replied : Response × Server toml → Option Response × Server toml
  replied (response, s) = (some response, s)

  -- The response, none if the thread of the connection panics, and the daemon after the request
  unfoldable pub serve : Request → Command → Server toml → Option Response × Server toml
  serve request (add id executable verdict port) s =
      replied (rule_add toml request id executable verdict port s)
  serve request (delete id) s = replied (rule_delete toml request id s)
  serve request (answer id verdict scope) s =
      replied (prompt_answer toml request id verdict scope s)
  serve request (note hostname ipv4 ttl_secs) s = dns_note toml request hostname ipv4 ttl_secs s
  serve request network_install s =
      replied (resume_request toml (lit "nft_install_failed") request s)
  serve request network_remove s = replied (pause_request toml (lit "nft_remove_failed") request s)
  serve request pause s = replied (pause_request toml (lit "pause_failed") request s)
  serve request resume s = replied (resume_request toml (lit "resume_failed") request s)
  serve request (block scope direction) s =
      replied (traffic_mutate toml request scope (some direction) s)
  serve request (unblock scope) s = replied (traffic_mutate toml request scope none s)

  unfoldable pub serve_all : List (Request × Command) → Server toml → Server toml
  serve_all [] s = s
  serve_all ((request, command) ∷ requests) s = serve_all requests (serve request command s).1
