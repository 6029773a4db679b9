-- ===== src/Event/Tests.antt =====
-- A record through the ring buffer.
use inter_fire.Prelude.{◌≡◌, some, [], ◌∷◌, arith}
use inter_fire.Event.{TcpConnectEvent, try_from_bytes, to_bytes}
use inter_fire.Event.Wire.{InRange, try_from_bytes-to_bytes}

abbrev event : TcpConnectEvent
event = record {
  pid = 42;
  process_start_ticks = 0;
  destination_ipv4 = 3405803777;
  destination_port = 443;
  reserved = 0;
}

event-InRange : InRange event
event-InRange = record {
  pid = omega arith;
  process_start_ticks = omega arith;
  destination_ipv4 = omega arith;
  destination_port = omega arith;
  reserved = omega arith;
}

try_from_bytes-to_bytes_example : try_from_bytes (to_bytes (1 ∷ 2 ∷ 3 ∷ 4 ∷ []) event) ≡ some event
try_from_bytes-to_bytes_example = try_from_bytes-to_bytes 1 2 3 4 event event-InRange
