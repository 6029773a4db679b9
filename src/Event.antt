-- ===== src/Event.antt =====
-- crates/interfire-ebpf/src/lib.rs and crates/interfire-ebpf-programs/src/main.rs: the record that the
-- kernel program writes for a connect, and its reading by the daemon. The host is little-endian, as
-- x86_64 is.
pub mod Wire
mod Tests
use inter_fire.Prelude.{
  ℕ, ◌+◌, ◌/◌, ◌%◌, ◌^◌, ◌≡◌, Bool, true, false, not, Option, none, some, List, [], ◌∷◌, ◌++◌,
  arith, nat_eq, if◌then◌else◌, ltb, length, take, drop, le_bytes, from_le, swap_bytes,
}

pub record TcpConnectEvent : Type 0 where
  pub pid : ℕ
  pub process_start_ticks : ℕ
  pub destination_ipv4 : ℕ
  pub destination_port : ℕ
  pub reserved : ℕ

-- `destination_octets`: `to_ne_bytes`
unfoldable pub destination_octets : TcpConnectEvent → List ℕ
destination_octets event = le_bytes 4 event.destination_ipv4

-- `&bytes[from..to]` of a slice that is long enough
abbrev pub slice : ℕ → ℕ → List ℕ → List ℕ
slice from size bytes = take size (drop from bytes)

-- `TcpConnectEvent::try_from_bytes`
unfoldable pub try_from_bytes : List ℕ → Option TcpConnectEvent
try_from_bytes bytes =
    if ltb (length bytes) 24
    then none
    else some (record {
      pid = from_le (slice 0 4 bytes);
      process_start_ticks = from_le (slice 8 8 bytes);
      destination_ipv4 = from_le (slice 16 4 bytes);
      destination_port = from_le (slice 20 2 bytes);
      reserved = from_le (slice 22 2 bytes);
    })

-- The 24 bytes of the `repr(C)` record as `entry.write` leaves them; the four bytes of padding before
-- the start time hold anything.
unfoldable pub to_bytes : List ℕ → TcpConnectEvent → List ℕ
to_bytes padding event =
    le_bytes 4 event.pid
    ++ padding
    ++ le_bytes 8 event.process_start_ticks
    ++ le_bytes 4 event.destination_ipv4
    ++ le_bytes 2 event.destination_port
    ++ le_bytes 2 event.reserved

-- `SockAddrIn` as it is read from memory: the port and the address are in network order there.
pub record SockAddrIn : Type 0 where
  pub sin_family : ℕ
  pub sin_port : ℕ
  pub sin_addr : ℕ

-- The event of an IPv4 connect
unfoldable pub event_of : ℕ → SockAddrIn → TcpConnectEvent
event_of pid_tgid sockaddr = record {
  pid = (pid_tgid / 2 ^ 32) % 2 ^ 32;
  process_start_ticks = 0;
  destination_ipv4 = swap_bytes 4 sockaddr.sin_addr;
  destination_port = swap_bytes 2 sockaddr.sin_port;
  reserved = 0;
}

-- `try_tcp_connect`, whose two results the program returns alike: the code, and the record that goes
-- to the ring buffer. The address is absent when the argument or its memory cannot be read, and
-- `room` says whether the ring buffer has room for a record.
unfoldable pub try_tcp_connect : Option SockAddrIn → ℕ → Bool → ℕ × Option TcpConnectEvent
unfolding event_of
try_tcp_connect none pid_tgid room = (1, none)
try_tcp_connect (some sockaddr) pid_tgid room =
    if not (nat_eq sockaddr.sin_family 2)
    then (0, none)
    else (0, (if room then some (event_of pid_tgid sockaddr) else none))
