-- ===== src/Nft/Chains.antt =====
-- An independent description of the owned table: its chains as lists of rules, what they do to a
-- packet, and how they are written.
use inter_fire.Prelude.{
  ℕ, Bool, true, false, ◌&&◌, Option, none, some, List, [], ◌∷◌, ◌++◌, Text, nat_eq, if◌then◌else◌,
}
use inter_fire.Traffic.{TrafficPreference, wants_out, wants_in}
use inter_fire.Nft.{
  TrafficCompose, queue_line, drop_line, user_line, loopback_out, loopback_in, established_line,
  table_line, output_head, input_head, chain_end, table_end,
}

pub data ChainRule : Type 0 where
  loopback established drop_new queue_new : ChainRule
  drop_user : ℕ → ChainRule

-- What the rules ask of a packet: the interface, the connection, and the user of its socket, which
-- none has on the way in.
pub record Packet : Type 0 where
  pub on_loopback : Bool
  pub is_established : Bool
  pub new_tcp : Bool
  pub skuid : Option ℕ

pub data Fate : Type 0 where
  accepted dropped queued : Fate

abbrev pub same_user : ℕ → Option ℕ → Bool
same_user uid none = false
same_user uid (some u) = nat_eq uid u

abbrev pub fires : ChainRule → Packet → Bool
fires loopback p = p.on_loopback
fires established p = p.is_established
fires drop_new p = p.new_tcp
fires queue_new p = p.new_tcp
fires (drop_user uid) p = p.new_tcp && same_user uid p.skuid

abbrev pub fate : ChainRule → Fate
fate loopback = accepted
fate established = accepted
fate drop_new = dropped
fate queue_new = queued
fate (drop_user uid) = dropped

-- The first rule that fires, under the policy accept
unfoldable pub eval_chain : List ChainRule → Packet → Fate
eval_chain [] p = accepted
eval_chain (r ∷ rules) p = let rest = eval_chain rules p in if fires r p then fate r else rest

abbrev pub drops_of : (TrafficPreference → Bool) → List (ℕ × TrafficPreference) → List ChainRule
drops_of wants [] = []
drops_of wants ((uid, preference) ∷ users) =
    let rest = drops_of wants users in if wants preference then drop_user uid ∷ rest else rest

-- The rules behind the two that every chain begins with
abbrev pub output_chain : TrafficCompose → List ChainRule
output_chain c =
    if wants_out c.machine
    then drop_new ∷ []
    else drops_of wants_out c.users
      ++ (if c.rules_active && c.queue_bound then queue_new ∷ [] else [])

abbrev pub input_chain : TrafficCompose → List ChainRule
input_chain c = if wants_in c.machine then drop_new ∷ [] else drops_of wants_in c.users

abbrev pub whole : List ChainRule → List ChainRule
whole rules = loopback ∷ established ∷ rules

abbrev pub show_rule : Text → ChainRule → Text
show_rule lo loopback = lo
show_rule lo established = established_line
show_rule lo drop_new = drop_line
show_rule lo queue_new = queue_line
show_rule lo (drop_user uid) = user_line uid

abbrev pub show_rules : Text → List ChainRule → Text
show_rules lo [] = []
show_rules lo (r ∷ rules) = show_rule lo r ++ show_rules lo rules

abbrev pub show_chain : Text → Text → List ChainRule → Text
show_chain head lo [] = []
show_chain head lo (r ∷ rules) = head ++ show_rules lo (whole (r ∷ rules)) ++ chain_end

abbrev pub no_rules : List ChainRule → Bool
no_rules [] = true
no_rules _ = false

-- The script of the two chains; a chain without rules is left out, and so is a table without chains.
abbrev pub show_table : List ChainRule → List ChainRule → Text
show_table outgoing incoming =
    if no_rules outgoing && no_rules incoming
    then []
    else table_line
      ++ show_chain output_head loopback_out outgoing
      ++ show_chain input_head loopback_in incoming
      ++ table_end
