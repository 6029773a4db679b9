-- ===== src/Rules.antt =====
-- crates/interfire-rules/src/lib.rs: application rules, the rule set and its verdicts. Loading and
-- saving are in Rules/Store.
pub mod Store
pub mod Verdicts
pub mod Edits
pub mod Tests
use inter_fire.Prelude.{
  ℕ, ◌+◌, ◌≡◌, refl, ◌↔◌, Bool, true, false, ◌&&◌, ◌||◌, not, Option, none, some, List, [], ◌∷◌,
  ◌++◌, arith, Text, Eq, ◌==◌, ==_iff, eq_nat, eq_text, text_eq, ltb, leb, nat_eq, if◌then◌else◌,
  filter, any, length, starts_with, is_some,
}

pub data Protocol : Type 0 where
  tcp udp : Protocol

pub data Direction : Type 0 where
  outbound inbound : Direction

pub data Verdict : Type 0 where
  allow deny prompt : Verdict

pub data Scope : Type 0 where
  once session permanent : Scope

-- `std::net::IpAddr`: the four octets, or the eight segments.
pub data IpAddr : Type 0 where
  v4 : (a b c d : ℕ) → IpAddr
  v6 : List ℕ → IpAddr

abbrev protocol_beq : Protocol → Protocol → Bool
protocol_beq tcp tcp = true
protocol_beq udp udp = true
protocol_beq _ _ = false

pub protocol_beq_iff : (p q : Protocol) → (protocol_beq p q ≡ true) ↔ (p ≡ q)
protocol_beq_iff p q = ground arith

abbrev direction_beq : Direction → Direction → Bool
direction_beq outbound outbound = true
direction_beq inbound inbound = true
direction_beq _ _ = false

pub direction_beq_iff : (p q : Direction) → (direction_beq p q ≡ true) ↔ (p ≡ q)
direction_beq_iff p q = ground arith

abbrev address_beq : IpAddr → IpAddr → Bool
address_beq (v4 a b c d) (v4 a' b' c' d') = nat_eq a a' && nat_eq b b' && nat_eq c c' && nat_eq d d'
address_beq (v6 s) (v6 t) = text_eq s t
address_beq _ _ = false

pub address_beq_iff : (p q : IpAddr) → (address_beq p q ≡ true) ↔ (p ≡ q)
address_beq_iff (v4 a b c d) (v4 a' b' c' d') = ground arith
address_beq_iff (v6 s) (v6 t) = ground (arith, eq_text.beq_iff s t)
address_beq_iff (v4 a b c d) (v6 t) = ground arith
address_beq_iff (v6 s) (v4 a b c d) = ground arith

instance abbrev pub eq_protocol : Eq Protocol
eq_protocol = record { beq = protocol_beq; beq_iff = protocol_beq_iff }

instance abbrev pub eq_direction : Eq Direction
eq_direction = record { beq = direction_beq; beq_iff = direction_beq_iff }

instance abbrev pub eq_address : Eq IpAddr
eq_address = record { beq = address_beq; beq_iff = address_beq_iff }

pub record Connection : Type 0 where
  pub executable : Text
  pub protocol : Protocol
  pub direction : Direction
  pub address : IpAddr
  pub hostname : Option Text
  pub port : ℕ

pub record Rule : Type 0 where
  pub id : ℕ
  pub executable : Text
  pub protocol : Option Protocol
  pub direction : Option Direction
  pub address : Option IpAddr
  pub hostname : Option Text
  pub port : Option ℕ
  pub verdict : Verdict
  pub scope : Scope

-- `Option::is_none_or(|value| value == x)`
abbrev pub none_or_eq {ℓ} : {A : Type ℓ} ⦃e : Eq A⦄ → Option A → A → Bool
none_or_eq none x = true
none_or_eq (some value) x = value == x

-- The test on the host: the rule's name against the name that the connection has, if any.
abbrev pub host_matches : Option Text → Option Text → Bool
host_matches none host = true
host_matches (some name) none = false
host_matches (some name) (some host) = host == name

-- `Rule::matches`
unfoldable pub matches : Rule → Connection → Bool
matches rule connection =
    rule.executable == connection.executable
    && none_or_eq rule.protocol connection.protocol
    && none_or_eq rule.direction connection.direction
    && none_or_eq rule.address connection.address
    && none_or_eq rule.port connection.port
    && host_matches rule.hostname connection.hostname

abbrev pub count_some {ℓ} : {A : Type ℓ} → Option A → ℕ
count_some none = 0
count_some (some _) = 1

-- `Rule::precedence`: the count of constraints (at most five, so it fits a `u8`), then the id.
unfoldable pub precedence : Rule → ℕ × ℕ
precedence rule = (
  count_some rule.protocol
      + count_some rule.direction
      + count_some rule.address
      + count_some rule.hostname
      + count_some rule.port,
  rule.id,
)

-- The order of pairs.
abbrev pub key_leb : ℕ × ℕ → ℕ × ℕ → Bool
key_leb (a, b) (c, d) = ltb a c || (nat_eq a c && leb b d)

-- `Iterator::max_by_key`: of equal keys the later element wins.
max_from : Rule → List Rule → Rule
max_from best [] = best
max_from best (rule ∷ rest) =
    max_from (if key_leb (precedence best) (precedence rule) then rule else best) rest

max_by_precedence : List Rule → Option Rule
max_by_precedence [] = none
max_by_precedence (rule ∷ rest) = some (max_from rule rest)

pub data RuleError : Type 0 where
  duplicate_id : ℕ → RuleError
  executable_must_be_absolute : RuleError

abbrev pub RuleSet : Type 0
RuleSet = List Rule

pub data Inserted : Type 0 where
  ok : RuleSet → Inserted
  err : RuleError → Inserted

abbrev is_empty : Text → Bool
is_empty [] = true
is_empty (_ ∷ _) = false

-- `RuleSet::insert`
unfoldable pub insert : Rule → RuleSet → Inserted
insert rule rules =
    if is_empty rule.executable || not (starts_with (b'/' ∷ []) rule.executable)
    then err executable_must_be_absolute
    else if any (λ existing. nat_eq existing.id rule.id) rules
    then err (duplicate_id rule.id)
    else ok (rules ++ rule ∷ [])

-- `RuleSet::remove`: whether a rule was removed.
unfoldable pub remove : ℕ → RuleSet → RuleSet × Bool
remove id rules =
    let kept = filter (λ rule. not (nat_eq rule.id id)) rules in
    (kept, not (nat_eq (length rules) (length kept)))

abbrev pub verdict_or_prompt : Option Rule → Verdict
verdict_or_prompt none = prompt
verdict_or_prompt (some rule) = rule.verdict

-- `RuleSet::verdict_for`
unfoldable pub verdict_for : RuleSet → Connection → Verdict
unfolding max_by_precedence max_from
verdict_for rules connection =
    verdict_or_prompt (max_by_precedence (filter (λ rule. matches rule connection) rules))
