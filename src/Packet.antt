-- ===== src/Packet.antt =====
-- crates/interfire-daemon/src/packet.rs: the destination of a queued IPv4 packet.
pub mod Agreement
mod Tests
use inter_fire.Prelude.{
  ℕ, ◌+◌, ◌*◌, ◌/◌, ◌%◌, ◌≡◌, Bool, not, ◌||◌, Option, none, some, List, arith, nat_eq,
  if◌then◌else◌, ltb, length, get_elem?, from_be,
}
use inter_fire.Pending.{DestKey}
use inter_fire.Event.{slice}

-- `payload[i]`, which is in range where it is used
abbrev pub byte_at : ℕ → List ℕ → ℕ
byte_at i payload = elim (get_elem? payload i) [ none ↦ 0 | some b ↦ b ]

-- The length of the IPv4 header, in bytes
abbrev pub header_length : List ℕ → ℕ
header_length payload = byte_at 0 payload % 16 * 4

-- `tcp_destination`
unfoldable pub tcp_destination : List ℕ → Option DestKey
tcp_destination payload =
    if ltb (length payload) 20
    then none
    else if not (nat_eq (byte_at 0 payload / 16) 4)
    then none
    else if ltb (header_length payload) 20 || ltb (length payload) (header_length payload + 4)
    then none
    else if not (nat_eq (byte_at 9 payload) 6)
    then none
    else some (record {
      ipv4 = from_be (slice 16 4 payload);
      port = from_be (slice (header_length payload + 2) 2 payload);
    })
