-- ===== src/Ipc/Preserved.antt =====
-- What every request keeps, over any sequence of them.
use inter_fire.Prelude.{
  Bool, true, false, eq_nat, [], ◌∷◌, none, some, from_le, ℕ, not, ◌||◌, Option, none, some, List,
  Text, lit, contains, split_on,
}
use inter_fire.Rules.{remove}
use inter_fire.Rules.Edits.{remove-IsValid}
use inter_fire.Rules.Store.{Toml}
use inter_fire.Dns.{DnsCache, observe}
use inter_fire.Dns.Laws.{observe-IsValid}
use inter_fire.Traffic.{TrafficPreference, parse_preference, is_blocked}
use inter_fire.Nft.{Outcome}
use inter_fire.Control.{Modes, TrafficScope}
use inter_fire.Control.Persistence.{
  IsPersisted, Operation, to_pause, to_resume, to_block, to_unblock, run, run-IsPersisted,
}
use inter_fire.Ipc.{
  Response, Request, Server, peer_may_mutate, rule_verdict, answer_verdict, answer_scope, is_blank,
}
use inter_fire.Ipc.Mutations.{prompt_answer, rule_add, rule_delete}
use inter_fire.Ipc.Switches.{
  with_modes, pause_request, resume_request, traffic_scope, block_preference, traffic_in,
  traffic_by, traffic_mutate, address_of, noted, note_at, dns_note,
}
use inter_fire.Ipc.Serve.{
  Command, serve, serve_all, add, delete, answer, note, network_install, network_remove, pause,
  resume, block, unblock,
}
use inter_fire.Ipc.{milliseconds}
use inter_fire.Ipc.Invariant.{
  IsValid, choose-IsValid, answer_with-IsValid, add_with-IsValid, delete_with-IsValid,
}

module _ (toml : Toml) where
  with_modes-IsValid :
      (failure : Text) (modes : Modes) (outcome : Outcome) (s : Server toml)
      → IsValid toml s
      → IsPersisted modes
      → IsValid toml (with_modes toml failure (outcome, modes) s).1
  with_modes-IsValid failure modes outcome s v w = record {
    rules = v.rules;
    prompts = v.prompts;
    dns = v.dns;
    modes = w;
  }

  -- Pausing and resuming
  switch-IsValid :
      (failure : Text) (request : Request) (operation : Operation) (outcome : Outcome)
      (s : Server toml)
      → IsValid toml s
      → IsValid toml (with_modes toml failure (outcome, run request.calls operation s.modes) s).1
  switch-IsValid failure request operation outcome s v =
      with_modes-IsValid failure (run request.calls operation s.modes) outcome s v
        (run-IsPersisted request.calls operation s.modes v.modes)

  pause_request-IsValid :
      (failure : Text) (request : Request) (s : Server toml)
      → IsValid toml s
      → IsValid toml (pause_request toml failure request s).1
  unfolding pause_request run
  pause_request-IsValid failure request s v =
      choose-IsValid toml (not (peer_may_mutate request.host request.peer)) _ _ v (
        switch-IsValid failure request to_pause (inter_fire.Control.pause request.calls s.modes).0 s
          v)

  resume_request-IsValid :
      (failure : Text) (request : Request) (s : Server toml)
      → IsValid toml s
      → IsValid toml (resume_request toml failure request s).1
  unfolding resume_request run
  resume_request-IsValid failure request s v =
      choose-IsValid toml (not (peer_may_mutate request.host request.peer)) _ _ v (
        switch-IsValid failure request to_resume (inter_fire.Control.resume request.calls s.modes).0
          s v)

  block_preference-IsValid :
      (request : Request) (scope : TrafficScope) (preference : Option TrafficPreference) (uid : ℕ)
      (s : Server toml)
      → IsValid toml s
      → IsValid toml (block_preference toml request scope preference uid s).1
  unfolding run
  block_preference-IsValid request scope none uid s v = v
  block_preference-IsValid request scope (some preference) uid s v =
      choose-IsValid toml (not (is_blocked preference)) _ _ v (
        switch-IsValid (lit "traffic_block_failed") request (to_block scope preference uid)
          (inter_fire.Control.traffic_block request.calls scope preference uid s.modes).0 s v)

  traffic_in-IsValid :
      (request : Request) (scope : Response × Option TrafficScope) (direction : Option Text)
      (uid : ℕ) (s : Server toml)
      → IsValid toml s
      → IsValid toml (traffic_in toml request scope direction uid s).1
  unfolding run
  traffic_in-IsValid request (refused, none) direction uid s v = v
  traffic_in-IsValid request (fine, some scope) none uid s v =
      switch-IsValid (lit "traffic_unblock_failed") request (to_unblock scope uid)
        (inter_fire.Control.traffic_unblock request.calls scope uid s.modes).0 s v
  traffic_in-IsValid request (fine, some scope) (some direction) uid s v =
      block_preference-IsValid request scope (parse_preference direction) uid s v

  traffic_by-IsValid :
      (request : Request) (peer : Option ℕ) (scope : Text) (direction : Option Text)
      (s : Server toml)
      → IsValid toml s
      → IsValid toml (traffic_by toml request peer scope direction s).1
  traffic_by-IsValid request none scope direction s v = v
  traffic_by-IsValid request (some uid) scope direction s v =
      traffic_in-IsValid request (traffic_scope scope uid) direction uid s v

  noted-IsValid :
      (o : Bool × DnsCache) (s : Server toml)
      → IsValid toml s
      → inter_fire.Dns.Laws.IsValid o.1
      → IsValid toml (noted toml o s).1
  noted-IsValid (true, dns) s v w = record {
    rules = v.rules;
    prompts = v.prompts;
    dns = w;
    modes = v.modes;
  }
  noted-IsValid (false, dns) s v w = record {
    rules = v.rules;
    prompts = v.prompts;
    dns = w;
    modes = v.modes;
  }

  note_at-IsValid :
      (request : Request) (hostname : Text) (octets : Option (List ℕ)) (ttl : Option ℕ)
      (s : Server toml)
      → IsValid toml s
      → IsValid toml (note_at toml request hostname octets ttl s).1
  note_at-IsValid request hostname none ttl s v = v
  note_at-IsValid request hostname (some octets) ttl s v =
      choose-IsValid toml s.poisoned.dns _ _ v (
        noted-IsValid
          (observe request.now request.later hostname (from_le octets) (milliseconds ttl) s.dns) s v
          (observe-IsValid request.now request.later hostname (from_le octets) (milliseconds ttl)
            s.dns v.dns))

  dns_note-IsValid :
      (request : Request) (hostname ipv4 : Text) (ttl : Option ℕ) (s : Server toml)
      → IsValid toml s
      → IsValid toml (dns_note toml request hostname ipv4 ttl s).1
  unfolding dns_note
  dns_note-IsValid request hostname ipv4 ttl s v =
      choose-IsValid toml (not (peer_may_mutate request.host request.peer)) _ _ v (
        choose-IsValid toml (is_blank hostname || contains b'|' hostname) _ _ v
          (note_at-IsValid request hostname (address_of (split_on b'.' ipv4)) ttl s v))

  traffic_mutate-IsValid :
      (request : Request) (scope : Text) (direction : Option Text) (s : Server toml)
      → IsValid toml s
      → IsValid toml (traffic_mutate toml request scope direction s).1
  unfolding traffic_mutate
  traffic_mutate-IsValid request scope direction s v =
      choose-IsValid toml (not (peer_may_mutate request.host request.peer)) _ _ v
        (traffic_by-IsValid request request.peer scope direction s v)

  rule_add-IsValid :
      (request : Request) (id : ℕ) (executable verdict : Text) (port : ℕ) (s : Server toml)
      → IsValid toml s
      → IsValid toml (rule_add toml request id executable verdict port s).1
  unfolding rule_add
  rule_add-IsValid request id executable verdict port s v =
      choose-IsValid toml (not (peer_may_mutate request.host request.peer)) _ _ v (
        choose-IsValid toml s.poisoned.rules _ _ v
          (add_with-IsValid toml request id executable port (rule_verdict verdict) s v))

  rule_delete-IsValid :
      (request : Request) (id : ℕ) (s : Server toml)
      → IsValid toml s
      → IsValid toml (rule_delete toml request id s).1
  unfolding rule_delete
  rule_delete-IsValid request id s v =
      choose-IsValid toml (not (peer_may_mutate request.host request.peer)) _ _ v (
        choose-IsValid toml s.poisoned.rules _ _ v (
          delete_with-IsValid toml request (remove id s.rules).1 (remove id s.rules).0 s v
            (remove-IsValid id s.rules v.rules).0))

  prompt_answer-IsValid :
      (request : Request) (id : ℕ) (verdict scope : Text) (s : Server toml)
      → IsValid toml s
      → IsValid toml (prompt_answer toml request id verdict scope s).1
  unfolding prompt_answer
  prompt_answer-IsValid request id verdict scope s v =
      choose-IsValid toml (not (peer_may_mutate request.host request.peer)) _ _ v
        (answer_with-IsValid toml request id (answer_verdict verdict) (answer_scope scope) s v)

  pub serve-IsValid :
      (request : Request) (command : Command) (s : Server toml)
      → IsValid toml s
      → IsValid toml (serve toml request command s).1
  unfolding serve
  serve-IsValid request (add id executable verdict port) s v =
      rule_add-IsValid request id executable verdict port s v
  serve-IsValid request (delete id) s v = rule_delete-IsValid request id s v
  serve-IsValid request (answer id verdict scope) s v =
      prompt_answer-IsValid request id verdict scope s v
  serve-IsValid request (note hostname ipv4 ttl) s v =
      dns_note-IsValid request hostname ipv4 ttl s v
  serve-IsValid request network_install s v =
      resume_request-IsValid (lit "nft_install_failed") request s v
  serve-IsValid request network_remove s v =
      pause_request-IsValid (lit "nft_remove_failed") request s v
  serve-IsValid request pause s v = pause_request-IsValid (lit "pause_failed") request s v
  serve-IsValid request resume s v = resume_request-IsValid (lit "resume_failed") request s v
  serve-IsValid request (block scope direction) s v =
      traffic_mutate-IsValid request scope (some direction) s v
  serve-IsValid request (unblock scope) s v = traffic_mutate-IsValid request scope none s v

  -- Every sequence of requests keeps the daemon consistent, whoever sends them and whichever of their calls of the file system and of `nft` fail: from a consistent daemon it comes to one whose rules have distinct ids and absolute paths, whose prompt queue and name cache satisfy their invariants, and whose pause and preference of the machine are those of the files.
  pub serve_all-IsValid :
      (requests : List (Request × Command)) (s : Server toml)
      → IsValid toml s
      → IsValid toml (serve_all toml requests s)
  unfolding serve_all
  serve_all-IsValid [] s v = v
  serve_all-IsValid ((request, command) ∷ requests) s v =
      serve_all-IsValid requests (serve toml request command s).1
        (serve-IsValid request command s v)
