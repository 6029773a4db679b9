-- ===== src/Traffic.antt =====
-- crates/interfire-daemon/src/traffic_mode.rs and enforcement_mode.rs: the preferences that the
-- daemon keeps in files. A directory is a list of names with what reading each one gives.
pub mod Modes
use inter_fire.Prelude.{
  ℕ, ◌+◌, ◌-◌, ◌^◌, ◌≡◌, Bool, true, false, not, ◌||◌, ◌&&◌, Option, none, some, List, [], ◌∷◌,
  ◌++◌, Text, lit, show_nat, parse_uint, trim, strip_prefix, eq_text, ◌==◌, if◌then◌else◌, leb, any,
  Map, get, insert,
}

pub data TrafficPreference : Type 0 where
  unrestricted out in_bound all : TrafficPreference

-- `as_str`
unfoldable pub as_str : TrafficPreference → Text
as_str unrestricted = lit "open"
as_str out = lit "out"
as_str in_bound = lit "in"
as_str all = lit "all"

-- `TrafficPreference::parse`
unfoldable pub parse_preference : Text → Option TrafficPreference
parse_preference raw =
    let word = trim raw in
    if word == lit "open"
    then some unrestricted
    else if word == lit "out"
    then some out
    else if word == lit "in"
    then some in_bound
    else if word == lit "all"
    then some all
    else none

abbrev pub is_blocked : TrafficPreference → Bool
is_blocked unrestricted = false
is_blocked _ = true

abbrev pub wants_out : TrafficPreference → Bool
wants_out out = true
wants_out all = true
wants_out _ = false

abbrev pub wants_in : TrafficPreference → Bool
wants_in in_bound = true
wants_in all = true
wants_in _ = false

pub data EffectiveTraffic : Type 0 where
  unblocked : EffectiveTraffic
  machine : TrafficPreference → EffectiveTraffic
  user : ℕ → TrafficPreference → EffectiveTraffic

-- `EffectiveTraffic::label`
unfoldable pub label : EffectiveTraffic → Text
label unblocked = lit "open"
label (machine preference) = lit "machine:" ++ as_str preference
label (user uid preference) = lit "user:" ++ show_nat uid ++ lit ":" ++ as_str preference

-- `effective`
unfoldable pub effective : TrafficPreference → TrafficPreference → ℕ → EffectiveTraffic
effective of_machine of_user uid =
    if is_blocked of_machine
    then machine of_machine
    else if is_blocked of_user
    then user uid of_user
    else unblocked

-- The state directory: the name of each file and its text, or none where it cannot be read.
abbrev pub Directory : Type 0
Directory = Map Text (Option Text)

abbrev pub content : Option (Option Text) → Option Text
content none = none
content (some text) = text

abbrev pub parse_or_open : Option Text → TrafficPreference
parse_or_open none = unrestricted
parse_or_open (some raw) = elim (parse_preference raw) [
  | none ↦ unrestricted
  | some preference ↦ preference
]

-- `load`: a file that is missing, unreadable or invalid means `Open`.
unfoldable pub load : Text → Directory → TrafficPreference
load name directory = parse_or_open (content (get name directory))

-- What the file calls of `store` come to: done, or a failure that leaves the file as it is.
abbrev pub line_of : TrafficPreference → Text
line_of preference = as_str preference ++ 10 ∷ []

-- `store`: a rename of a new file over the old one
unfoldable pub store_preference : Bool → Text → TrafficPreference → Directory → Bool × Directory
store_preference ok name preference directory =
    (ok, (if ok then insert name (some (line_of preference)) directory else directory))

-- The name of a `user_path`
unfoldable pub user_name : ℕ → Text
user_name uid = lit "traffic.user." ++ show_nat uid

-- The uid of a directory entry
abbrev pub uid_of : Option Text → Option ℕ
uid_of none = none
uid_of (some text) = parse_uint (2 ^ 32 - 1) text

abbrev pub add_block :
    Option ℕ → TrafficPreference → List (ℕ × TrafficPreference) → List (ℕ × TrafficPreference)
add_block none preference rest = rest
add_block (some uid) preference rest =
    if is_blocked preference then (uid, preference) ∷ rest else rest

-- The loop of `load_user_blocks` over the entries
abbrev pub blocks_of : Directory → List (ℕ × TrafficPreference)
blocks_of [] = []
blocks_of ((name, text) ∷ entries) =
    add_block (uid_of (strip_prefix (lit "traffic.user.") name)) (parse_or_open text)
      (blocks_of entries)

-- `sort_by_key` on the uid, which is stable
abbrev pub insert_sorted :
    ℕ × TrafficPreference → List (ℕ × TrafficPreference) → List (ℕ × TrafficPreference)
insert_sorted x [] = x ∷ []
insert_sorted x (y ∷ ys) =
    let rest = insert_sorted x ys in if leb x.0 y.0 then x ∷ y ∷ ys else y ∷ rest

abbrev pub sort_by_uid : List (ℕ × TrafficPreference) → List (ℕ × TrafficPreference)
sort_by_uid [] = []
sort_by_uid (x ∷ xs) = insert_sorted x (sort_by_uid xs)

-- `load_user_blocks`
unfoldable pub load_user_blocks : Directory → List (ℕ × TrafficPreference)
load_user_blocks directory = sort_by_uid (blocks_of directory)

abbrev pub machine_name : Text
machine_name = lit "traffic.machine"

abbrev pub is_empty : List (ℕ × TrafficPreference) → Bool
is_empty [] = true
is_empty _ = false

-- `any_block_active`
unfoldable pub any_block_active : Directory → Bool
any_block_active directory =
    is_blocked (load machine_name directory) || not (is_empty (load_user_blocks directory))

-- enforcement_mode.rs
pub data EnforcementMode : Type 0 where
  paused active : EnforcementMode

unfoldable pub mode_str : EnforcementMode → Text
mode_str paused = lit "paused"
mode_str active = lit "active"

-- `EnforcementMode::parse`
unfoldable pub parse_mode : Text → Option EnforcementMode
parse_mode raw =
    let word = trim raw in
    if word == lit "paused" then some paused else if word == lit "active" then some active else none

abbrev pub mode_or_paused : Option Text → EnforcementMode
mode_or_paused none = paused
mode_or_paused (some raw) = elim (parse_mode raw) [ none ↦ paused | some mode ↦ mode ]

abbrev pub mode_name : Text
mode_name = lit "enforcement.mode"

-- `enforcement_mode::load`
unfoldable pub load_mode : Directory → EnforcementMode
load_mode directory = mode_or_paused (content (get mode_name directory))

-- `enforcement_mode::store`
unfoldable pub store_mode : Bool → EnforcementMode → Directory → Bool × Directory
store_mode ok mode directory =
    (ok, (if ok then insert mode_name (some (mode_str mode ++ 10 ∷ [])) directory else directory))
