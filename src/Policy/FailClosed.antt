-- ===== src/Policy/FailClosed.antt =====
-- Fail closed: what an accepted packet takes, and what every decision says of its event.
use inter_fire.Prelude.{
  ℕ, ◌≡◌, refl, ◌⊎◌, inl, inr, Bool, true, false, Option, none, some, lit, if◌then◌else◌,
}
use inter_fire.Rules.{RuleSet, Connection, verdict_for}
use inter_fire.Pending.{accept, drop}
use inter_fire.Process.{ProcessIdentity, Procfs}
use inter_fire.Prompts.{PromptKey, PromptQueue, take_once_allow, consume_once_deny}
use inter_fire.Event.{TcpConnectEvent}
use inter_fire.Policy.{
  Decision, Tables, Readings, connection_from, attribute, prompt_key_of, spend, ask_rules,
  decide_by_rules, decide_attributed, decide_for, decide,
}

ask_rules-accept :
    (now now' : ℕ) (verdict : inter_fire.Rules.Verdict) (key : PromptKey) (q : PromptQueue)
    → (ask_rules now now' verdict key q).0.0 ≡ accept
    → verdict ≡ inter_fire.Rules.Verdict.allow
unfolding ask_rules
ask_rules-accept now now' inter_fire.Rules.Verdict.allow key q h = refl
ask_rules-accept now now' inter_fire.Rules.Verdict.deny key q h = cc
ask_rules-accept now now' inter_fire.Rules.Verdict.prompt key q h = cc

-- The events that a decision of accept can come from
abbrev pub IsAllowed : Readings → RuleSet → ProcessIdentity → TcpConnectEvent → Tables → Type 0
IsAllowed now rules identity event t =
    ((take_once_allow now.allow now.allow_token (prompt_key_of identity event) t.prompts).0 ≡ true)
    ⊎ (verdict_for rules (connection_from now.name identity event t.dns).0
        ≡ inter_fire.Rules.Verdict.allow)

abbrev the_decision : Decision × Tables → Decision
the_decision x = x.0

by_tokens :
    (x y z : Decision × Tables) (allowed denied : Bool)
    → (the_decision (if allowed then x else if denied then y else z)).packet_verdict ≡ accept
    → y.0.packet_verdict ≡ drop
    → (allowed ≡ true) ⊎ (z.0.packet_verdict ≡ accept)
by_tokens x y z true denied h d = inl refl
by_tokens x y z false true h d = cc
by_tokens x y z false false h d = inr h

decide_attributed-accept :
    (now : Readings) (rules : RuleSet) (identity : ProcessIdentity) (event : TcpConnectEvent)
    (t : Tables)
    → (decide_attributed now rules identity event t).0.packet_verdict ≡ accept
    → IsAllowed now rules identity event t
unfolding decide_attributed spend decide_by_rules
decide_attributed-accept now rules identity event t h =
    let key = prompt_key_of identity event in
    let (allowed, prompts) = take_once_allow now.allow now.allow_token key t.prompts in
    let (denied, prompts') = consume_once_deny now.deny key prompts in
    elim (by_tokens
      (spend now.name identity event accept (lit "allow") (record t { prompts = prompts }))
      (spend now.name identity event drop (lit "deny") (record t { prompts = prompts' }))
      (decide_by_rules now rules identity event (record t { prompts = prompts' })) allowed denied h
      refl) [
        | inl token ↦ inl token
        | inr ruled ↦ inr (
            ask_rules-accept now.ask now.asked
              (verdict_for rules (connection_from now.name identity event t.dns).0) key prompts'
              ruled)
      ]

decide_for-accept :
    (now : Readings) (rules : RuleSet) (event : TcpConnectEvent) (o : Option ProcessIdentity)
    (t : Tables)
    → (decide_for now rules event o t).0.packet_verdict ≡ accept
    → (identity : ProcessIdentity) × (o ≡ some identity) × IsAllowed now rules identity event t
unfolding decide_for
decide_for-accept now rules event none t h = cc
decide_for-accept now rules event (some identity) t h =
    (identity, refl, decide_attributed-accept now rules identity event t h)

-- Nothing is let through by default: a connect is accepted only if the process behind it was identified, and either the operator's once-allow token for its executable and destination is fresh or the rules allow exactly this connection. An unidentified process, a prompt, a full queue of prompts and a deny all drop the packet.
pub decide-accept :
    (now : Readings) (procfs : Procfs) (rules : RuleSet) (event : TcpConnectEvent) (t : Tables)
    → (decide now procfs rules event t).0.packet_verdict ≡ accept
    → (identity : ProcessIdentity) × ((attribute procfs event t.cache).0 ≡ some identity)
      × IsAllowed now rules identity event t
unfolding decide
decide-accept now procfs rules event t h =
    decide_for-accept now rules event (attribute procfs event t.cache).0
      (record t { cache = (attribute procfs event t.cache).1 }) h
