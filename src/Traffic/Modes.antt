-- ===== src/Traffic/Modes.antt =====
-- What is stored is what is loaded, and the machine's preference has priority.
use inter_fire.Prelude.{
  ◌≡◌, refl, ap, ◌∙◌, true, some, [], ◌∷◌, ◌++◌, arith, Text, get, insert, get-insert, eq_text,
  ==_iff, trim, text_eq,
}
use inter_fire.Traffic.{
  TrafficPreference, unrestricted, out, in_bound, all, as_str, parse_preference, line_of, load,
  store_preference, Directory, content, parse_or_open, EnforcementMode, paused, active, mode_str,
  load_mode, store_mode, mode_or_paused, mode_name, parse_mode,
}

get-insert_self :
    (name text : Text) (directory : Directory)
    → get name (insert name (some text) directory) ≡ some (some text)
get-insert_self name text directory =
    get-insert name name (some text) directory ∙ ground (arith, ==_iff name name)

parse-line_of :
    (preference : TrafficPreference) → parse_or_open (some (line_of preference)) ≡ preference
unfolding parse_preference as_str trim text_eq
parse-line_of unrestricted = refl
parse-line_of out = refl
parse-line_of in_bound = refl
parse-line_of all = refl

-- A preference that was stored is the one that is loaded, whatever the directory held.
pub load-store_preference :
    (name : Text) (preference : TrafficPreference) (directory : Directory)
    → load name (store_preference true name preference directory).1 ≡ preference
unfolding load store_preference
load-store_preference name preference directory =
    ap (λ o. parse_or_open (content o)) (get-insert_self name (line_of preference) directory)
    ∙ parse-line_of preference

parse-mode_line : (mode : EnforcementMode) → mode_or_paused (some (mode_str mode ++ 10 ∷ [])) ≡ mode
unfolding parse_mode mode_str trim text_eq
parse-mode_line paused = refl
parse-mode_line active = refl

-- An enforcement mode that was stored is the one that is loaded, whatever the directory held.
pub load_mode-store_mode :
    (mode : EnforcementMode) (directory : Directory)
    → load_mode (store_mode true mode directory).1 ≡ mode
unfolding load_mode store_mode
load_mode-store_mode mode directory =
    ap (λ o. mode_or_paused (content o))
      (get-insert_self mode_name (mode_str mode ++ 10 ∷ []) directory)
    ∙ parse-mode_line mode
