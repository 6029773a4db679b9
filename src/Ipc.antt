-- ===== src/Ipc.antt =====
-- crates/interfire-daemon/src/ipc.rs and operator_auth.rs: the requests that change the daemon, with
-- the check of the peer. The accounts of the host, the files and `nft` are arguments.
pub mod Mutations
pub mod Switches
pub mod Serve
pub mod Reports
pub mod Handle
pub mod Authorization
pub mod Invariant
pub mod Preserved
pub mod Restart
pub mod Retry
mod Tests
use inter_fire.Prelude.{
  ℕ, ◌+◌, ◌*◌, ◌-◌, ◌^◌, Bool, true, false, not, ◌||◌, ◌&&◌, Option, none, some, List, [], ◌∷◌, min,
  max, Text, lit, eq_text, eq_nat, ◌==◌, nat_eq, contains, if◌then◌else◌, leb, ltb, length,
  starts_with, split_on, parse_uint, from_le,
}
use inter_fire.Rules.{Rule, RuleSet, Protocol, Direction, Scope, Verdict, Inserted, insert, remove}
use inter_fire.Rules.Store.{Toml, Disk, SaveCalls, Saved, save}
use inter_fire.Prompts.{PromptQueue, RuleScope, Answered, AnswerResult, AnswerError, answer}
use inter_fire.Dns.{DnsCache, observe}
use inter_fire.Traffic.{TrafficPreference, parse_preference, is_blocked}
use inter_fire.Nft.{Outcome}
pub use inter_fire.Proto.Response.{Response, pong, error}
use inter_fire.Control.{
  Modes, Calls, TrafficScope, of_machine, of_user, pause, resume, traffic_block, traffic_unblock,
}

-- What the host says of an account: the group of its login, and the groups that `getgrouplist` finds
-- for it, none if its name cannot be passed or the call fails
pub record Account : Type 0 where
  pub gid : ℕ
  pub groups : Option (List ℕ)

pub record Host : Type 0 where
  -- The user that the daemon runs as
  pub current : ℕ
  pub operator_group : Option ℕ
  pub account : ℕ → Option Account

abbrev pub in_groups : Option (List ℕ) → ℕ → Bool
in_groups none gid = false
in_groups (some groups) gid = contains gid groups

-- `user_in_gid`
unfoldable pub user_in_gid : Account → ℕ → Bool
user_in_gid user target = nat_eq user.gid target || in_groups user.groups target

abbrev pub member_of : Option ℕ → Option Account → Bool
member_of (some gid) (some user) = user_in_gid user gid
member_of _ _ = false

-- `uid_may_mutate`, with `uid_in_named_group`
unfoldable pub uid_may_mutate : Host → ℕ → Bool
uid_may_mutate host uid =
    nat_eq uid 0 || (nat_eq uid host.current || member_of host.operator_group (host.account uid))

-- `peer_may_mutate`, of the credentials of the socket's peer
unfoldable pub peer_may_mutate : Host → Option ℕ → Bool
peer_may_mutate host none = false
peer_may_mutate host (some uid) = uid_may_mutate host uid

-- Which locks are poisoned
pub record Poisoned : Type 0 where
  pub rules : Bool
  pub prompts : Bool
  pub dns : Bool

-- What a request meets: the peer and the accounts, the calls of one save and of one change of the
-- modes, and two readings of the clock
pub record Request : Type 0 where
  pub peer : Option ℕ
  pub host : Host
  pub save_calls : SaveCalls
  pub calls : Calls
  pub now : ℕ
  pub later : ℕ

abbrev pub u64_max : ℕ
u64_max = 2 ^ 64 - 1

module _ (toml : Toml) where
  pub record Server : Type 0 where
    pub rules : RuleSet
    pub disk : Disk toml
    pub prompts : PromptQueue
    pub dns : DnsCache
    pub modes : Modes
    pub poisoned : Poisoned

-- `verdict.as_str()` of a rule, and of an answer
abbrev pub rule_verdict : Text → Option Verdict
rule_verdict verdict =
    if verdict == lit "allow"
    then some Verdict.allow
    else if verdict == lit "deny"
    then some Verdict.deny
    else if verdict == lit "prompt"
    then some Verdict.prompt
    else none

abbrev pub answer_verdict : Text → Option Verdict
answer_verdict verdict =
    if verdict == lit "allow"
    then some Verdict.allow
    else if verdict == lit "deny"
    then some Verdict.deny
    else none

abbrev pub answer_scope : Text → Option RuleScope
answer_scope scope =
    if scope == lit "once"
    then some RuleScope.once
    else if scope == lit "session"
    then some RuleScope.session
    else if scope == lit "permanent"
    then some RuleScope.permanent
    else none

abbrev pub highest_id : RuleSet → ℕ
highest_id [] = 0
highest_id (rule ∷ rules) = max rule.id (highest_id rules)

abbrev pub scope_of : RuleScope → Scope
scope_of RuleScope.once = Scope.once
scope_of RuleScope.session = Scope.session
scope_of RuleScope.permanent = Scope.permanent

abbrev pub tcp_rule : ℕ → Text → ℕ → Verdict → Scope → Rule
tcp_rule id executable port verdict scope = record {
  id = id;
  executable = executable;
  protocol = some Protocol.tcp;
  direction = some Direction.outbound;
  address = none;
  hostname = none;
  port = some port;
  verdict = verdict;
  scope = scope;
}

-- The rule of an answer, under the next id
unfoldable pub answered_rule : RuleSet → Answered → Rule
answered_rule rules answered =
    tcp_rule (min (highest_id rules + 1) u64_max) answered.key.executable answered.key.port
      answered.verdict (scope_of answered.scope)

abbrev pub saved_response : Saved → Response
saved_response Saved.ok = pong
saved_response (Saved.err e) = error (lit "persistence_failed")

abbrev pub all_digits : Text → Bool
all_digits [] = true
all_digits (c ∷ s) = (leb b'0' c && leb c b'9') && all_digits s

abbrev pub is_blank : Text → Bool
is_blank [] = true
is_blank _ = false

-- `Duration::from_secs`
abbrev pub milliseconds : Option ℕ → Option ℕ
milliseconds none = none
milliseconds (some seconds) = some (seconds * 1000)
