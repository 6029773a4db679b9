-- ===== src/Ipc/Switches.antt =====
-- crates/interfire-daemon/src/ipc.rs: `enforcement_mutate`, `network_mutate`, `traffic_mutate` and `dns_note`.
use inter_fire.Prelude.{
  ℕ, Bool, true, false, not, ◌||◌, ◌&&◌, Option, none, some, List, [], ◌∷◌, Text, lit, eq_text,
  eq_nat, ◌==◌, nat_eq, contains, if◌then◌else◌, leb, ltb, length, starts_with, split_on,
  parse_uint, from_le,
}
use inter_fire.Rules.Store.{Toml}
use inter_fire.Dns.{DnsCache, observe}
use inter_fire.Traffic.{TrafficPreference, parse_preference, is_blocked}
use inter_fire.Nft.{Outcome}
use inter_fire.Control.{
  Modes, TrafficScope, of_machine, of_user, pause, resume, traffic_block, traffic_unblock,
}
use inter_fire.Ipc.{
  Response, pong, error, Request, Server, peer_may_mutate, all_digits, is_blank, milliseconds,
}

abbrev pub mode_response : Text → Outcome → Response
mode_response failure Outcome.done = pong
mode_response failure (Outcome.failed message) = error failure

-- The scope of a traffic request of a peer, none where the peer may not, or no such scope
abbrev pub traffic_scope : Text → ℕ → Response × Option TrafficScope
traffic_scope scope uid =
    if scope == lit "machine"
    then (if not (nat_eq uid 0)
        then (error (lit "unauthorized"), none)
        else (pong, some of_machine))
    else if scope == lit "user"
    then (pong, some of_user)
    else (error (lit "malformed_request"), none)

-- `Ipv4Addr::from_str`: four numbers of one to three digits, without leading zeros, of one byte each
abbrev pub octet : Text → Option ℕ
octet s =
    if all_digits s && (leb (length s) 3 && not (starts_with (b'0' ∷ []) s && ltb 1 (length s)))
    then parse_uint 255 s
    else none

abbrev pub octets_of : Option ℕ → Option ℕ → Option ℕ → Option ℕ → Option (List ℕ)
octets_of (some a) (some b) (some c) (some d) = some (a ∷ b ∷ c ∷ d ∷ [])
octets_of _ _ _ _ = none

abbrev pub address_of : List Text → Option (List ℕ)
address_of (a ∷ b ∷ c ∷ d ∷ []) = octets_of (octet a) (octet b) (octet c) (octet d)
address_of _ = none

module _ (toml : Toml) where
  -- The handlers of the modes: how they answer an outcome
  abbrev pub with_modes : Text → Outcome × Modes → Server toml → Response × Server toml
  with_modes failure (outcome, modes) s =
      (mode_response failure outcome, record s { modes = modes })

  -- `enforcement_mutate` and `network_mutate`: pausing and resuming, under two names of the failure
  unfoldable pub pause_request : Text → Request → Server toml → Response × Server toml
  pause_request failure request s =
      if not (peer_may_mutate request.host request.peer)
      then (error (lit "unauthorized"), s)
      else with_modes failure (pause request.calls s.modes) s

  unfoldable pub resume_request : Text → Request → Server toml → Response × Server toml
  resume_request failure request s =
      if not (peer_may_mutate request.host request.peer)
      then (error (lit "unauthorized"), s)
      else with_modes failure (resume request.calls s.modes) s

  abbrev pub block_preference :
      Request → TrafficScope → Option TrafficPreference → ℕ → Server toml → Response × Server toml
  block_preference request scope none uid s = (error (lit "malformed_request"), s)
  block_preference request scope (some preference) uid s =
      if not (is_blocked preference)
      then (error (lit "malformed_request"), s)
      else with_modes (lit "traffic_block_failed")
          (traffic_block request.calls scope preference uid s.modes) s

  -- The change of a peer whose scope is accepted; a direction asks for a block, none for its end.
  abbrev pub traffic_in :
      Request
      → Response × Option TrafficScope
      → Option Text
      → ℕ
      → Server toml
      → Response × Server toml
  traffic_in request (refused, none) direction uid s = (refused, s)
  traffic_in request (fine, some scope) none uid s =
      with_modes (lit "traffic_unblock_failed") (traffic_unblock request.calls scope uid s.modes) s
  traffic_in request (fine, some scope) (some direction) uid s =
      block_preference request scope (parse_preference direction) uid s

  abbrev pub traffic_by :
      Request → Option ℕ → Text → Option Text → Server toml → Response × Server toml
  traffic_by request none scope direction s = (error (lit "unauthorized"), s)
  traffic_by request (some uid) scope direction s =
      traffic_in request (traffic_scope scope uid) direction uid s

  -- `traffic_mutate`, as `dispatch` calls it
  unfoldable pub traffic_mutate :
      Request → Text → Option Text → Server toml → Response × Server toml
  traffic_mutate request scope direction s =
      if not (peer_may_mutate request.host request.peer)
      then (error (lit "unauthorized"), s)
      else traffic_by request request.peer scope direction s

  -- What the handler comes to after an observation: a panic ends the thread of the connection, which
  -- writes nothing, and poisons the lock that it holds.
  abbrev pub noted : Bool × DnsCache → Server toml → Option Response × Server toml
  noted (true, dns) s = (some pong, record s { dns = dns })
  noted (false, dns) s = (none, record s { dns = dns; poisoned = record s.poisoned { dns = true } })

  abbrev pub note_at :
      Request → Text → Option (List ℕ) → Option ℕ → Server toml → Option Response × Server toml
  note_at request hostname none ttl s = (some (error (lit "invalid_ipv4")), s)
  note_at request hostname (some octets) ttl s =
      if s.poisoned.dns
      then (some (error (lit "lock_poisoned")), s)
      else noted
          (observe request.now request.later hostname (from_le octets) (milliseconds ttl) s.dns) s

  -- `dns_note`
  unfoldable pub dns_note :
      Request → Text → Text → Option ℕ → Server toml → Option Response × Server toml
  dns_note request hostname ipv4 ttl_secs s =
      if not (peer_may_mutate request.host request.peer)
      then (some (error (lit "unauthorized")), s)
      else if is_blank hostname || contains b'|' hostname
      then (some (error (lit "invalid_hostname")), s)
      else note_at request hostname (address_of (split_on b'.' ipv4)) ttl_secs s
