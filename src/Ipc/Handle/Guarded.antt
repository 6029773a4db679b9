-- ===== src/Ipc/Handle/Guarded.antt =====
-- What a peer without permission can change.
use inter_fire.Prelude.{
  ℕ, ◌≡◌, ◌⊎◌, refl, sym, subst, Bool, true, false, Text, lit, if◌then◌else◌, ltb, inl, inr,
  contains, eq_nat, ◌||◌,
}
use inter_fire.Rules.Store.{Toml}
use inter_fire.Prompts.{PromptQueue, list_pending}
use inter_fire.Dns.{DnsCache, list_fresh}
use inter_fire.Audit.{byte_length, subscribe}
use inter_fire.Proto
use inter_fire.Proto.{Parsed, parse}
use inter_fire.Ipc.{Response, error, peer_may_mutate, is_blank}
use inter_fire.Ipc.Serve
use inter_fire.Ipc.Serve.{Command, serve}
use inter_fire.Ipc.Authorization.{serve_unauthorized}
use inter_fire.Ipc.Reports.{prompt_list, dns_list}
use inter_fire.Ipc.Handle.{
  Context, Shared, with_server, change, dispatch, audit_subscribe, answer, handle,
}

-- A list that is asked for drops what has expired, and nothing else.
pub prompt_list-expired :
    (locked : Bool) (now later : ℕ) (queue : PromptQueue)
    → ((prompt_list locked now later queue).1 ≡ queue)
      ⊎ ((prompt_list locked now later queue).1 ≡ inter_fire.Prompts.expire later queue)
unfolding prompt_list list_pending
prompt_list-expired true now later queue = inl refl
prompt_list-expired false now later queue = inr refl

pub dns_list-expired :
    (locked : Bool) (now later : ℕ) (cache : DnsCache)
    → ((dns_list locked now later cache).1 ≡ cache)
      ⊎ ((dns_list locked now later cache).1 ≡ inter_fire.Dns.expire now cache)
unfolding dns_list list_fresh
dns_list-expired true now later cache = inl refl
dns_list-expired false now later cache = inr refl

module _ (toml : Toml) where
  -- What stays as it is: all but what has expired, and the subscribers of the log
  pub record IsUntouched (c : Context) (s s' : Shared toml) : Type 0 where
    pub rules : s'.server.rules ≡ s.server.rules
    pub disk : s'.server.disk ≡ s.server.disk
    pub modes : s'.server.modes ≡ s.server.modes
    pub prompts :
        (s'.server.prompts ≡ s.server.prompts)
        ⊎ (s'.server.prompts ≡ inter_fire.Prompts.expire c.request.later s.server.prompts)
    pub dns :
        (s'.server.dns ≡ s.server.dns)
        ⊎ (s'.server.dns ≡ inter_fire.Dns.expire c.request.now s.server.dns)
    pub cache : s'.tables.cache ≡ s.tables.cache
    pub recent : s'.tables.recent ≡ s.tables.recent
    pub stats : s'.tables.stats ≡ s.tables.stats
    pub records : s'.tables.audit.records ≡ s.tables.audit.records
    pub file : s'.tables.audit.file ≡ s.tables.audit.file

  same : (c : Context) (s : Shared toml) → IsUntouched c s s
  same c s = record {
    rules = refl;
    disk = refl;
    modes = refl;
    prompts = inl refl;
    dns = inl refl;
    cache = refl;
    recent = refl;
    stats = refl;
    records = refl;
    file = refl;
  }

  choose-IsUntouched :
      (c : Context) (s : Shared toml) {A : Type 0} (b : Bool) (x y : A × Shared toml)
      → IsUntouched c s x.1
      → IsUntouched c s y.1
      → IsUntouched c s (if b then x else y).1
  choose-IsUntouched c s true x y v w = v
  choose-IsUntouched c s false x y v w = w

  change-IsUntouched :
      (c : Context) (s : Shared toml) (command : Command)
      → peer_may_mutate c.request.host c.request.peer ≡ false
      → IsUntouched c s (change toml c s command).1
  change-IsUntouched c s command h =
      subst (λ r. IsUntouched c s (with_server toml s r).1)
        (sym (serve_unauthorized toml c.request command s.server h)) (same c s)

  dispatch-IsUntouched :
      (c : Context) (request : Proto.Request) (s : Shared toml)
      → peer_may_mutate c.request.host c.request.peer ≡ false
      → IsUntouched c s (dispatch toml c request s).1
  unfolding dispatch
  dispatch-IsUntouched c (Proto.rule_add id executable verdict port) s h =
      change-IsUntouched c s (Serve.add id executable verdict port) h
  dispatch-IsUntouched c (Proto.rule_delete id) s h = change-IsUntouched c s (Serve.delete id) h
  dispatch-IsUntouched c (Proto.prompt_answer id verdict scope) s h =
      change-IsUntouched c s (Serve.answer id verdict scope) h
  dispatch-IsUntouched c (Proto.dns_note hostname ipv4 ttl) s h =
      change-IsUntouched c s (Serve.note hostname ipv4 ttl) h
  dispatch-IsUntouched c Proto.network_install s h = change-IsUntouched c s Serve.network_install h
  dispatch-IsUntouched c Proto.network_remove s h = change-IsUntouched c s Serve.network_remove h
  dispatch-IsUntouched c Proto.pause s h = change-IsUntouched c s Serve.pause h
  dispatch-IsUntouched c Proto.resume s h = change-IsUntouched c s Serve.resume h
  dispatch-IsUntouched c (Proto.traffic_block scope direction) s h =
      change-IsUntouched c s (Serve.block scope direction) h
  dispatch-IsUntouched c (Proto.traffic_unblock scope) s h =
      change-IsUntouched c s (Serve.unblock scope) h
  dispatch-IsUntouched c Proto.prompt_list s h = record {
    rules = refl;
    disk = refl;
    modes = refl;
    prompts =
        prompt_list-expired s.server.poisoned.prompts c.request.now c.request.later
          s.server.prompts;
    dns = inl refl;
    cache = refl;
    recent = refl;
    stats = refl;
    records = refl;
    file = refl;
  }
  dispatch-IsUntouched c Proto.dns_list s h = record {
    rules = refl;
    disk = refl;
    modes = refl;
    prompts = inl refl;
    dns = dns_list-expired s.server.poisoned.dns c.request.now c.request.later s.server.dns;
    cache = refl;
    recent = refl;
    stats = refl;
    records = refl;
    file = refl;
  }
  dispatch-IsUntouched c Proto.ping s h = same c s
  dispatch-IsUntouched c Proto.status s h = same c s
  dispatch-IsUntouched c Proto.rule_list s h = same c s
  dispatch-IsUntouched c (Proto.audit_tail limit) s h = same c s
  dispatch-IsUntouched c (Proto.audit_subscribe id since) s h = same c s
  dispatch-IsUntouched c Proto.process_list s h = same c s
  dispatch-IsUntouched c Proto.network_status s h = same c s
  dispatch-IsUntouched c Proto.stats_summary s h = same c s
  dispatch-IsUntouched c Proto.stats_hosts s h = same c s
  dispatch-IsUntouched c Proto.stats_procs s h = same c s
  dispatch-IsUntouched c Proto.stats_addrs s h = same c s
  dispatch-IsUntouched c Proto.stats_ports s h = same c s
  dispatch-IsUntouched c Proto.stats_users s h = same c s

  subscribe-IsUntouched :
      (c : Context) (id : Text) (s : Shared toml) → IsUntouched c s (audit_subscribe toml id s).1
  unfolding audit_subscribe subscribe
  subscribe-IsUntouched c id s =
      choose-IsUntouched c s (is_blank id || (contains b'|' id || contains b' ' id)) _ _ (same c s)
        (choose-IsUntouched c s s.tables.audit_poisoned (error (lit "lock_poisoned"), s)
          (
            Response.subscribed id,
            record s { tables = record s.tables { audit = (subscribe id s.tables.audit).1 } },
          )
          (same c s)
          record {
            rules = refl;
            disk = refl;
            modes = refl;
            prompts = inl refl;
            dns = inl refl;
            cache = refl;
            recent = refl;
            stats = refl;
            records = refl;
            file = refl;
          })

  answer-IsUntouched :
      (c : Context) (parsed : Parsed) (s : Shared toml)
      → peer_may_mutate c.request.host c.request.peer ≡ false
      → IsUntouched c s (answer toml c parsed s).1
  unfolding answer
  answer-IsUntouched c (Parsed.err e) s h = same c s
  answer-IsUntouched c (Parsed.ok (Proto.audit_subscribe id since)) s h =
      subscribe-IsUntouched c id s
  answer-IsUntouched c (Parsed.ok request) s h = dispatch-IsUntouched c request s h

  -- No frame of a peer that is neither root nor the user of the daemon nor in the operator group changes what the firewall does: whatever text it writes, the rules, their file, the modes, the processes, the statistics and the records of the log are as they were, and of the prompts and the names only those go that have expired.
  pub handle_unauthorized :
      (c : Context) (frame : Text) (s : Shared toml)
      → peer_may_mutate c.request.host c.request.peer ≡ false
      → IsUntouched c s (handle toml c frame s).1
  unfolding handle
  handle_unauthorized c frame s h =
      choose-IsUntouched c s (ltb 8192 (byte_length frame)) _ _ (same c s)
        (answer-IsUntouched c (parse frame) s h)
