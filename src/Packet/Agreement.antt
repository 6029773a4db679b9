-- ===== src/Packet/Agreement.antt =====
-- The kernel program and the packet parser name a destination alike.
use inter_fire.Prelude.{
  ℕ, ◌+◌, ◌/◌, ◌≡◌, ◌≤◌, ◌<◌, ap, ◌∙◌, sym, some, List, [], ◌∷◌, arith, length, All, from_be,
  from_le, swap_bytes, le_bytes, le_bytes-from_le,
}
use inter_fire.Event.{slice, TcpConnectEvent, event_of, destination_octets}
use inter_fire.Packet.{tcp_destination, byte_at, header_length}

-- What a packet with a TCP segment in an IPv4 header looks like to the parser.
pub record IsTcp (payload : List ℕ) : Type 0 where
  pub version : byte_at 0 payload / 16 ≡ 4
  pub header : 20 ≤ header_length payload
  pub long : header_length payload + 4 ≤ length payload
  pub protocol : byte_at 9 payload ≡ 6

pub tcp_destination-IsTcp :
    (payload : List ℕ)
    → IsTcp payload
    → tcp_destination payload
      ≡ some (record {
        ipv4 = from_be (slice 16 4 payload);
        port = from_be (slice (header_length payload + 2) 2 payload);
      })
unfolding tcp_destination
tcp_destination-IsTcp payload r = ground (arith, r.version, r.header, r.long, r.protocol)

swap_bytes-from_le :
    (bs : List ℕ) → All (λ b. b < 256) bs → swap_bytes (length bs) (from_le bs) ≡ from_be bs
swap_bytes-from_le bs h = ap from_be (le_bytes-from_le bs h)

-- The key under which the verdict of a connect is stored is the key that is read off its packets: when the socket address holds the bytes `a.b.c.d` and `hi lo` of the port in network order, the event of the kernel program and every TCP packet with these bytes as its destination give one and the same pair.
pub key_agrees :
    (a b c d hi lo pid_tgid : ℕ) (payload : List ℕ)
    → All (λ byte. byte < 256) (a ∷ b ∷ c ∷ d ∷ hi ∷ lo ∷ [])
    → IsTcp payload
    → slice 16 4 payload ≡ a ∷ b ∷ c ∷ d ∷ []
    → slice (header_length payload + 2) 2 payload ≡ hi ∷ lo ∷ []
    → let event : TcpConnectEvent = event_of pid_tgid (record {
      sin_family = 2;
      sin_port = from_le (hi ∷ lo ∷ []);
      sin_addr = from_le (a ∷ b ∷ c ∷ d ∷ []);
    }) in
      tcp_destination payload
      ≡ some (record { ipv4 = event.destination_ipv4; port = event.destination_port })
unfolding event_of
key_agrees a b c d hi lo pid_tgid payload (ha, (hb, (hc, (hd, (hhi, (hlo, t)))))) tcp at_ip
      at_port =
    tcp_destination-IsTcp payload tcp
    ∙ (λ i. some (record { ipv4 = from_be (at_ip i); port = from_be (at_port i) }))
    ∙ sym (λ i. some (record {
      ipv4 = swap_bytes-from_le (a ∷ b ∷ c ∷ d ∷ []) (ha, (hb, (hc, (hd, tt)))) i;
      port = swap_bytes-from_le (hi ∷ lo ∷ []) (hhi, (hlo, tt)) i;
    }))

-- On a little-endian host the octets of an event are those of the socket address in reverse: the kernel program has already brought the address to the order of the host, and `destination_octets` reads it in that order.
pub destination_octets_reversed :
    (a b c d pid_tgid port : ℕ)
    → All (λ byte. byte < 256) (a ∷ b ∷ c ∷ d ∷ [])
    → destination_octets (
        event_of pid_tgid
          (record { sin_family = 2; sin_port = port; sin_addr = from_le (a ∷ b ∷ c ∷ d ∷ []) }))
      ≡ d ∷ c ∷ b ∷ a ∷ []
unfolding event_of destination_octets
destination_octets_reversed a b c d pid_tgid port (ha, (hb, (hc, (hd, t)))) =
    ap (le_bytes 4) (swap_bytes-from_le (a ∷ b ∷ c ∷ d ∷ []) (ha, (hb, (hc, (hd, tt)))))
    ∙ le_bytes-from_le (d ∷ c ∷ b ∷ a ∷ []) (hd, (hc, (hb, (ha, tt))))
