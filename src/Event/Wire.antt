-- ===== src/Event/Wire.antt =====
-- The record survives the ring buffer, and the address in it.
use inter_fire.Prelude.{ℕ, ◌^◌, ◌≡◌, ◌<◌, some, [], ◌∷◌, arith, from_le-le_bytes}
use inter_fire.Event.{TcpConnectEvent, try_from_bytes, to_bytes, SockAddrIn, event_of}

pub record InRange (event : TcpConnectEvent) : Type 0 where
  pub pid : event.pid < 256 ^ 4
  pub process_start_ticks : event.process_start_ticks < 256 ^ 8
  pub destination_ipv4 : event.destination_ipv4 < 256 ^ 4
  pub destination_port : event.destination_port < 256 ^ 2
  pub reserved : event.reserved < 256 ^ 2

-- A record that the kernel program writes is read back as it was, whatever the padding holds.
pub try_from_bytes-to_bytes :
    (a b c d : ℕ) (event : TcpConnectEvent)
    → InRange event
    → try_from_bytes (to_bytes (a ∷ b ∷ c ∷ d ∷ []) event) ≡ some event
unfolding try_from_bytes to_bytes
try_from_bytes-to_bytes a b c d event r = λ i. some (record {
  pid = from_le-le_bytes 4 event.pid r.pid i;
  process_start_ticks = from_le-le_bytes 8 event.process_start_ticks r.process_start_ticks i;
  destination_ipv4 = from_le-le_bytes 4 event.destination_ipv4 r.destination_ipv4 i;
  destination_port = from_le-le_bytes 2 event.destination_port r.destination_port i;
  reserved = from_le-le_bytes 2 event.reserved r.reserved i;
})

event_of-InRange : (pid_tgid : ℕ) (sockaddr : SockAddrIn) → InRange (event_of pid_tgid sockaddr)
unfolding event_of
event_of-InRange pid_tgid sockaddr = record {
  pid = omega arith;
  process_start_ticks = omega arith;
  destination_ipv4 = omega arith;
  destination_port = omega arith;
  reserved = omega arith;
}
