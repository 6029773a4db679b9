-- ===== src/Ipc/Handle/Kept.antt =====
-- What every frame keeps, whoever writes it.
use inter_fire.Prelude.{
  sym, subst, Bool, true, false, List, [], ◌∷◌, Text, lit, some, if◌then◌else◌, ltb, inl, inr,
  contains, eq_nat, ◌||◌,
}
use inter_fire.Rules.Store.{Toml}
use inter_fire.Prompts.Expiry
use inter_fire.Dns.Laws
use inter_fire.Audit.{byte_length, subscribe}
use inter_fire.Proto
use inter_fire.Proto.{Parsed, parse}
use inter_fire.Ipc.{Response, error, is_blank}
use inter_fire.Ipc.Serve
use inter_fire.Ipc.Serve.{serve}
use inter_fire.Ipc.Invariant.{IsValid}
use inter_fire.Ipc.Preserved.{serve-IsValid}
use inter_fire.Ipc.Handle.{Context, Shared, dispatch, audit_subscribe, answer, handle, handle_all}
use inter_fire.Ipc.Handle.Guarded.{prompt_list-expired, dns_list-expired}

module _ (toml : Toml) where
  choose-IsValid :
      {A : Type 0} (b : Bool) (x y : A × Shared toml)
      → IsValid toml x.1.server
      → IsValid toml y.1.server
      → IsValid toml (if b then x else y).1.server
  choose-IsValid true x y v w = v
  choose-IsValid false x y v w = w

  prompts-IsValid :
      (c : Context) (s : Shared toml)
      → IsValid toml s.server
      → IsValid toml (dispatch toml c Proto.prompt_list s).1.server
  unfolding dispatch
  prompts-IsValid c s v = record {
    rules = v.rules;
    prompts =
        elim (prompt_list-expired s.server.poisoned.prompts c.request.now c.request.later
          s.server.prompts) [
            | inl e ↦ subst inter_fire.Prompts.Invariant.IsValid (sym e) v.prompts
            | inr e ↦
                subst inter_fire.Prompts.Invariant.IsValid (sym e)
                  (Expiry.expire-IsValid c.request.later s.server.prompts v.prompts)
          ];
    dns = v.dns;
    modes = v.modes;
  }

  names-IsValid :
      (c : Context) (s : Shared toml)
      → IsValid toml s.server
      → IsValid toml (dispatch toml c Proto.dns_list s).1.server
  unfolding dispatch
  names-IsValid c s v = record {
    rules = v.rules;
    prompts = v.prompts;
    dns = elim (dns_list-expired s.server.poisoned.dns c.request.now c.request.later s.server.dns) [
      | inl e ↦ subst Laws.IsValid (sym e) v.dns
      | inr e ↦ subst Laws.IsValid (sym e) (Laws.expire-IsValid c.request.now s.server.dns v.dns)
    ];
    modes = v.modes;
  }

  dispatch-IsValid :
      (c : Context) (request : Proto.Request) (s : Shared toml)
      → IsValid toml s.server
      → IsValid toml (dispatch toml c request s).1.server
  unfolding dispatch
  dispatch-IsValid c (Proto.rule_add id executable verdict port) s v =
      serve-IsValid toml c.request (Serve.add id executable verdict port) s.server v
  dispatch-IsValid c (Proto.rule_delete id) s v =
      serve-IsValid toml c.request (Serve.delete id) s.server v
  dispatch-IsValid c (Proto.prompt_answer id verdict scope) s v =
      serve-IsValid toml c.request (Serve.answer id verdict scope) s.server v
  dispatch-IsValid c (Proto.dns_note hostname ipv4 ttl) s v =
      serve-IsValid toml c.request (Serve.note hostname ipv4 ttl) s.server v
  dispatch-IsValid c Proto.network_install s v =
      serve-IsValid toml c.request Serve.network_install s.server v
  dispatch-IsValid c Proto.network_remove s v =
      serve-IsValid toml c.request Serve.network_remove s.server v
  dispatch-IsValid c Proto.pause s v = serve-IsValid toml c.request Serve.pause s.server v
  dispatch-IsValid c Proto.resume s v = serve-IsValid toml c.request Serve.resume s.server v
  dispatch-IsValid c (Proto.traffic_block scope direction) s v =
      serve-IsValid toml c.request (Serve.block scope direction) s.server v
  dispatch-IsValid c (Proto.traffic_unblock scope) s v =
      serve-IsValid toml c.request (Serve.unblock scope) s.server v
  dispatch-IsValid c Proto.prompt_list s v = prompts-IsValid c s v
  dispatch-IsValid c Proto.dns_list s v = names-IsValid c s v
  dispatch-IsValid c Proto.ping s v = v
  dispatch-IsValid c Proto.status s v = v
  dispatch-IsValid c Proto.rule_list s v = v
  dispatch-IsValid c (Proto.audit_tail limit) s v = v
  dispatch-IsValid c (Proto.audit_subscribe id since) s v = v
  dispatch-IsValid c Proto.process_list s v = v
  dispatch-IsValid c Proto.network_status s v = v
  dispatch-IsValid c Proto.stats_summary s v = v
  dispatch-IsValid c Proto.stats_hosts s v = v
  dispatch-IsValid c Proto.stats_procs s v = v
  dispatch-IsValid c Proto.stats_addrs s v = v
  dispatch-IsValid c Proto.stats_ports s v = v
  dispatch-IsValid c Proto.stats_users s v = v

  subscribe-IsValid :
      (id : Text) (s : Shared toml)
      → IsValid toml s.server
      → IsValid toml (audit_subscribe toml id s).1.server
  unfolding audit_subscribe
  subscribe-IsValid id s v =
      choose-IsValid (is_blank id || (contains b'|' id || contains b' ' id))
        (error (lit "invalid_subscriber"), s) _ v
        (choose-IsValid s.tables.audit_poisoned (error (lit "lock_poisoned"), s)
          (
            Response.subscribed id,
            record s { tables = record s.tables { audit = (subscribe id s.tables.audit).1 } },
          )
          v v)

  answer-IsValid :
      (c : Context) (parsed : Parsed) (s : Shared toml)
      → IsValid toml s.server
      → IsValid toml (answer toml c parsed s).1.server
  unfolding answer
  answer-IsValid c (Parsed.err e) s v = v
  answer-IsValid c (Parsed.ok (Proto.audit_subscribe id since)) s v = subscribe-IsValid id s v
  answer-IsValid c (Parsed.ok request) s v = dispatch-IsValid c request s v

  handle-IsValid :
      (c : Context) (frame : Text) (s : Shared toml)
      → IsValid toml s.server
      → IsValid toml (handle toml c frame s).1.server
  unfolding handle
  handle-IsValid c frame s v =
      choose-IsValid (ltb 8192 (byte_length frame)) (some (error (lit "frame_too_large")), s) _ v
        (answer-IsValid c (parse frame) s v)

  -- Nothing that is written into the socket makes the daemon inconsistent: after any sequence of lines, of whatever text and by whatever peers, malformed and oversized ones and those that make their thread panic included, and whichever calls of the file system and of `nft` fail, the rules have distinct ids and absolute paths, the prompt queue and the name cache satisfy their invariants, and the pause and the preference of the machine are those of the files.
  pub handle_all-IsValid :
      (frames : List (Context × Text)) (s : Shared toml)
      → IsValid toml s.server
      → IsValid toml (handle_all toml frames s).server
  unfolding handle_all
  handle_all-IsValid [] s v = v
  handle_all-IsValid ((c, frame) ∷ frames) s v =
      handle_all-IsValid frames (handle toml c frame s).1 (handle-IsValid c frame s v)
