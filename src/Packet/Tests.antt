-- ===== src/Packet/Tests.antt =====
-- A connect to 203.0.113.1:443 and the first packet of it.
use inter_fire.Prelude.{ℕ, ◌≡◌, refl, some, List, [], ◌∷◌, arith, from_le}
use inter_fire.Event.{TcpConnectEvent, event_of, destination_octets}
use inter_fire.Packet.{tcp_destination}
use inter_fire.Packet.Agreement.{IsTcp, key_agrees, destination_octets_reversed}

abbrev syn : List ℕ
syn =
    69 ∷ 0 ∷ 0 ∷ 40 ∷ 0 ∷ 0 ∷ 0 ∷ 0 ∷ 64 ∷ 6 ∷ 0 ∷ 0 ∷ 10 ∷ 0 ∷ 0 ∷ 2 ∷ 203 ∷ 0 ∷ 113 ∷ 1 ∷ 200 ∷ 0
    ∷ 1 ∷ 187 ∷ 0 ∷ 0 ∷ []

syn-IsTcp : IsTcp syn
syn-IsTcp = record { version = refl; header = omega arith; long = omega arith; protocol = refl }

key_agrees_example :
    let event : TcpConnectEvent = event_of 180388626432 (record {
      sin_family = 2;
      sin_port = from_le (1 ∷ 187 ∷ []);
      sin_addr = from_le (203 ∷ 0 ∷ 113 ∷ 1 ∷ []);
    }) in
    tcp_destination syn
    ≡ some (record { ipv4 = event.destination_ipv4; port = event.destination_port })
key_agrees_example =
    key_agrees 203 0 113 1 1 187 180388626432 syn
      (omega arith, (omega arith, (omega arith, (omega arith, (omega arith, (omega arith, tt))))))
      syn-IsTcp refl refl

destination_octets_reversed_example :
    destination_octets (
      event_of 180388626432
        (record { sin_family = 2; sin_port = 47873; sin_addr = from_le (203 ∷ 0 ∷ 113 ∷ 1 ∷ []) }))
    ≡ 1 ∷ 113 ∷ 0 ∷ 203 ∷ []
destination_octets_reversed_example =
    destination_octets_reversed 203 0 113 1 180388626432 47873
      (omega arith, (omega arith, (omega arith, (omega arith, tt))))
