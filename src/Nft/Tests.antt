-- ===== src/Nft/Tests.antt =====
-- A machine that blocks what comes in, and a user that blocks what goes out.
use inter_fire.Prelude.{◌≡◌, true, List, [], ◌∷◌}
use inter_fire.Traffic.{in_bound, out}
use inter_fire.Nft.{TrafficCompose, compose_traffic_script}
use inter_fire.Nft.Chains.{ChainRule, Packet, eval_chain, whole, show_table}
use inter_fire.Nft.Refinement.{outgoing_fate, incoming_fate, compose_traffic_script_lem}

abbrev mixed : TrafficCompose
mixed = record {
  machine = in_bound;
  users = (1000, out) ∷ [];
  rules_active = true;
  queue_bound = true;
}

compose_traffic_script_example :
    (outgoing : List ChainRule) × (incoming : List ChainRule) × (compose_traffic_script mixed
      ≡ show_table outgoing incoming)
    × ((p : Packet) → eval_chain (whole outgoing) p ≡ outgoing_fate mixed p)
    × ((p : Packet) → eval_chain (whole incoming) p ≡ incoming_fate mixed p)
compose_traffic_script_example = compose_traffic_script_lem mixed
