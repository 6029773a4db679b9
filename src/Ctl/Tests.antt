-- ===== src/Ctl/Tests.antt =====
-- A rule from the command line, and the options of the traffic.
use inter_fire.Prelude.{
  ◌≡◌, ◌⊎◌, refl, none, some, List, [], ◌∷◌, Text, lit, text_eq, parse_uint, strip_prefix,
  literal-IsWord, all_values,
}
use inter_fire.Proto
use inter_fire.Proto.{Parsed, ok, parse, malformed}
use inter_fire.Ctl.{parse_command, parse_traffic_command, command_frame}
use inter_fire.Ctl.Stands.{Stands}
use inter_fire.Ctl.Arms.{IsUnnumbered}
use inter_fire.Ctl.Understood.{parse-command_frame}

abbrev arguments : List Text
arguments = lit "rules" ∷ lit "add" ∷ lit "7" ∷ lit "/usr/bin/curl" ∷ lit "deny" ∷ lit "443" ∷ []

abbrev words : List Text
words = lit "rule-add" ∷ lit "7" ∷ lit "/usr/bin/curl" ∷ lit "deny" ∷ lit "443" ∷ []

stands_for : parse_command arguments ≡ some words
unfolding parse_command text_eq parse_uint
stands_for = refl

machine_blocked :
    parse_command (lit "traffic" ∷ lit "block" ∷ lit "--scope=machine" ∷ lit "--direction=all" ∷ [])
    ≡ some (lit "traffic-block" ∷ lit "scope=machine" ∷ lit "direction=all" ∷ [])
unfolding parse_command parse_traffic_command text_eq strip_prefix
machine_blocked = refl

no_such_scope : parse_command (lit "traffic" ∷ lit "block" ∷ lit "--scope=host" ∷ []) ≡ none
unfolding parse_command parse_traffic_command text_eq strip_prefix
no_such_scope = refl

parse-command_frame_example :
    ((request : Proto.Request) × Stands arguments request
      × (parse (command_frame words) ≡ ok request))
    ⊎ (IsUnnumbered arguments words × (parse (command_frame words) ≡ Parsed.err malformed))
parse-command_frame_example =
    parse-command_frame arguments words
      (
        literal-IsWord (lit "rules") (unfold all_values in refl),
        (
          literal-IsWord (lit "add") (unfold all_values in refl),
          (
            literal-IsWord (lit "7") (unfold all_values in refl),
            (
              literal-IsWord (lit "/usr/bin/curl") (unfold all_values in refl),
              (
                literal-IsWord (lit "deny") (unfold all_values in refl),
                (literal-IsWord (lit "443") (unfold all_values in refl), tt),
              ),
            ),
          ),
        ),
      )
      stands_for
