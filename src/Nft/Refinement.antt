-- ===== src/Nft/Refinement.antt =====
-- The script that is composed is that of the described table, and what the table does to packets.
use inter_fire.Prelude.{
  ℕ, ◌≡◌, refl, ap, ◌∙◌, sym, inl, inr, Bool, true, false, not, ◌||◌, ◌&&◌, Option, List, [], ◌∷◌,
  ◌++◌, any, Text, if◌then◌else◌, arith, append_assoc, append-nil, Bool-cases,
}
use inter_fire.Traffic.{TrafficPreference, wants_out, wants_in}
use inter_fire.Nft.{
  TrafficCompose, queue_line, drop_line, user_line, loopback_out, loopback_in, established_line,
  table_line, output_head, input_head, chain_end, table_end, compose_traffic_script, output_rules,
  input_rules, user_rules,
}
use inter_fire.Nft.Chains.{
  ChainRule, queue_new, Packet, Fate, accepted, dropped, queued, same_user, eval_chain, drops_of,
  output_chain, input_chain, whole, show_rules, show_rule, show_chain, no_rules, show_table,
}

show_rules-append :
    (lo : Text) (xs ys : List ChainRule)
    → show_rules lo (xs ++ ys) ≡ show_rules lo xs ++ show_rules lo ys
show_rules-append lo [] ys = refl
show_rules-append lo (x ∷ xs) ys =
    ap (λ s. show_rule lo x ++ s) (show_rules-append lo xs ys)
    ∙ sym (append_assoc (show_rule lo x) (show_rules lo xs) (show_rules lo ys))

user_rules_lem :
    (lo : Text) (wants : TrafficPreference → Bool) (users : List (ℕ × TrafficPreference))
    → (show_rules lo (drops_of wants users) ≡ (user_rules wants users).0)
      × (no_rules (drops_of wants users) ≡ not (user_rules wants users).1)
unfolding user_rules
user_rules_lem lo wants [] = (refl, refl)
user_rules_lem lo wants ((uid, preference) ∷ users) =
    let (texts, needs) = user_rules_lem lo wants users in
    elim (Bool-cases (wants preference)) [
      | inl e ↦ rw e (ap (λ s. user_line uid ++ s) texts, refl)
      | inr e ↦ rw e (texts, needs)
    ]

no_rules-push : (xs : List ChainRule) (r : ChainRule) → no_rules (xs ++ r ∷ []) ≡ false
no_rules-push [] r = refl
no_rules-push (x ∷ xs) r = refl

output_rules_lem :
    (c : TrafficCompose)
    → (show_rules loopback_out (output_chain c) ≡ (output_rules c).0)
      × (no_rules (output_chain c) ≡ not (output_rules c).1)
unfolding output_rules
output_rules_lem c =
    let (texts, needs) = user_rules_lem loopback_out wants_out c.users in
    elim (Bool-cases (wants_out c.machine)) [
      | inl e ↦ rw e (append-nil drop_line, refl)
      | inr e ↦ elim (Bool-cases (c.rules_active && c.queue_bound)) [
        | inl f ↦
            rw (e, f)
              (
                show_rules-append loopback_out (drops_of wants_out c.users) (queue_new ∷ [])
                    ∙ ap (λ s. s ++ (queue_line ++ [])) texts
                    ∙ ap (λ s. (user_rules wants_out c.users).0 ++ s) (append-nil queue_line),
                no_rules-push (drops_of wants_out c.users) queue_new,
              )
        | inr f ↦
            rw (e, f)
              (
                ap (show_rules loopback_out) (append-nil (drops_of wants_out c.users)) ∙ texts,
                ap no_rules (append-nil (drops_of wants_out c.users)) ∙ needs,
              )
      ]
    ]

input_rules_lem :
    (c : TrafficCompose)
    → (show_rules loopback_in (input_chain c) ≡ (input_rules c).0)
      × (no_rules (input_chain c) ≡ not (input_rules c).1)
unfolding input_rules
input_rules_lem c = elim (Bool-cases (wants_in c.machine)) [
  | inl e ↦ rw e (append-nil drop_line, refl)
  | inr e ↦ rw e (user_rules_lem loopback_in wants_in c.users)
]

show_chain_lem :
    (head lo : Text) (rules : List ChainRule) (text : Text) (need : Bool)
    → show_rules lo rules ≡ text
    → no_rules rules ≡ not need
    → show_chain head lo rules
      ≡ (if need then head ++ lo ++ established_line ++ text ++ chain_end else [])
show_chain_lem head lo [] text true e n = ground arith
show_chain_lem head lo [] text false e n = refl
show_chain_lem head lo (r ∷ rules) text false e n = ground arith
show_chain_lem head lo (r ∷ rules) text true e n =
    ap (λ s. s ++ chain_end)
      (sym (append_assoc head lo (established_line ++ show_rules lo (r ∷ rules)))
        ∙ sym (append_assoc (head ++ lo) established_line (show_rules lo (r ∷ rules)))
        ∙ ap (λ s. head ++ lo ++ established_line ++ s) e)

-- The script is the printed form of the described table.
compose_traffic_script-show_table :
    (c : TrafficCompose) → compose_traffic_script c ≡ show_table (output_chain c) (input_chain c)
unfolding compose_traffic_script
compose_traffic_script-show_table c =
    let (out_text, out_need) = output_rules_lem c in
    let (in_text, in_need) = input_rules_lem c in
    let outgoing =
      show_chain_lem output_head loopback_out (output_chain c) (output_rules c).0 (output_rules c).1
        out_text out_need in
    let incoming =
      show_chain_lem input_head loopback_in (input_chain c) (input_rules c).0 (input_rules c).1
        in_text in_need in
    sym (λ i.
      if out_need i && in_need i then [] else table_line ++ outgoing i ++ incoming i ++ table_end)

-- Whether a user is named with a preference that asks for the drop
abbrev pub is_named : (TrafficPreference → Bool) → Option ℕ → List (ℕ × TrafficPreference) → Bool
is_named wants skuid users = any (λ u. wants u.1 && same_user u.0 skuid) users

eval-drops_of :
    (wants : TrafficPreference → Bool) (p : Packet) (users : List (ℕ × TrafficPreference))
    (rules : List ChainRule)
    → eval_chain (drops_of wants users ++ rules) p
      ≡ (if p.new_tcp && is_named wants p.skuid users then dropped else eval_chain rules p)
unfolding eval_chain
eval-drops_of wants p [] rules = ground arith
eval-drops_of wants p ((uid, preference) ∷ users) rules =
    ground (arith, eval-drops_of wants p users rules)

eval-output_chain :
    (c : TrafficCompose) (p : Packet)
    → eval_chain (whole (output_chain c)) p ≡ (
        if (p.on_loopback || p.is_established) || not p.new_tcp
        then accepted
        else if wants_out c.machine || is_named wants_out p.skuid c.users
        then dropped
        else if c.rules_active && c.queue_bound
        then queued
        else accepted)
unfolding eval_chain
eval-output_chain c p = ground (
  arith,
  eval-drops_of wants_out p c.users (queue_new ∷ []),
  eval-drops_of wants_out p c.users [],
)

eval-input_chain :
    (c : TrafficCompose) (p : Packet)
    → eval_chain (whole (input_chain c)) p ≡ (
        if (p.on_loopback || p.is_established) || not p.new_tcp
        then accepted
        else if wants_in c.machine || is_named wants_in p.skuid c.users
        then dropped
        else accepted)
unfolding eval_chain
eval-input_chain c p =
    ground (arith, eval-drops_of wants_in p c.users [], append-nil (drops_of wants_in c.users))

-- What becomes of an outgoing packet, and of an incoming one
abbrev pub outgoing_fate : TrafficCompose → Packet → Fate
outgoing_fate c p =
    if (p.on_loopback || p.is_established) || not p.new_tcp
    then accepted
    else if wants_out c.machine || is_named wants_out p.skuid c.users
    then dropped
    else if c.rules_active && c.queue_bound
    then queued
    else accepted

abbrev pub incoming_fate : TrafficCompose → Packet → Fate
incoming_fate c p =
    if (p.on_loopback || p.is_established) || not p.new_tcp
    then accepted
    else if wants_in c.machine || is_named wants_in p.skuid c.users
    then dropped
    else accepted

-- The script that is loaded into the kernel is the printed form of a table of two chains, each left out if it has no rule. The outgoing chain lets the loopback interface, established connections and all that opens no TCP connection pass; a new connection it drops if the machine or the user of the socket blocks the outbound direction, queues to the daemon if the rules are active and the queue is bound, and lets pass otherwise. The incoming chain drops a new connection, not on the loopback interface, if the machine or the user blocks the inbound direction, and lets everything else pass.
pub compose_traffic_script_lem :
    (c : TrafficCompose)
    → (outgoing : List ChainRule) × (incoming : List ChainRule) × (compose_traffic_script c
        ≡ show_table outgoing incoming)
      × ((p : Packet) → eval_chain (whole outgoing) p ≡ outgoing_fate c p)
      × ((p : Packet) → eval_chain (whole incoming) p ≡ incoming_fate c p)
compose_traffic_script_lem c = (
  output_chain c,
  input_chain c,
  compose_traffic_script-show_table c,
  eval-output_chain c,
  eval-input_chain c,
)
