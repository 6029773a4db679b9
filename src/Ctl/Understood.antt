-- ===== src/Ctl/Understood.antt =====
-- What the daemon makes of the commands.
use inter_fire.Prelude.{
  ◌≡◌, ◌⊎◌, ◌∙◌, refl, sym, ap, subst, inl, inr, Bool, true, false, not, ◌||◌, ◌&&◌, Option, none,
  some, List, [], ◌∷◌, Text, lit, eq_text, ◌==◌, text_eq, if◌then◌else◌, All, IsWord, all_values,
  all_values-IsValue, IsValue, literal-IsWord, field-IsWord, split_whitespace-frame_of,
}
use inter_fire.Proto
use inter_fire.Proto.{
  Parsed, ok, parse, parse_words, parse_u64, parse_u16, is_scope, is_direction, with_number,
  with_numbers, since_of, malformed,
}
use inter_fire.Proto.Frames.{words_of, parse_words-words_of}
use inter_fire.Ctl.{
  Command, traffic_options, traffic_words, parse_traffic_command, is_nil, parse_command,
  command_frame,
}
use inter_fire.Ctl.Stands.{Stands, both, named, named_and, is_nil-eq-true, traffic_options-Gives}
use inter_fire.Ctl.Longer.{untraffic-IsFine}
use inter_fire.Ctl.Arms.{IsUnnumbered, IsFine, choose-IsFine, contains-All, one-IsFine}

or_false : (b : Bool) → b || false ≡ b
or_false true = refl
or_false false = refl

-- A word that is tested against literals is one of them.
scope-IsValue : (scope : Text) → is_scope scope ≡ true → IsValue scope
unfolding all_values
scope-IsValue scope h =
    contains-All IsValue scope (lit "user" ∷ lit "machine" ∷ [])
      (ap (λ b. text_eq scope (lit "user") || b) (or_false (text_eq scope (lit "machine"))) ∙ h)
      (all_values-IsValue (lit "user") refl, (all_values-IsValue (lit "machine") refl, tt))

direction-IsValue : (direction : Text) → is_direction direction ≡ true → IsValue direction
unfolding all_values
direction-IsValue direction h =
    contains-All IsValue direction (lit "out" ∷ lit "in" ∷ lit "all" ∷ [])
      (ap (λ b. text_eq direction (lit "out") || (text_eq direction (lit "in") || b))
          (or_false (text_eq direction (lit "all")))
        ∙ h)
      (
        all_values-IsValue (lit "out") refl,
        (all_values-IsValue (lit "in") refl, (all_values-IsValue (lit "all") refl, tt)),
      )

-- The scope is tested first, and refused by a test that fails.
scoped-IsFine :
    (arguments : List Text) (b : Bool) (x : Command)
    → (b ≡ true → IsFine arguments x)
    → IsFine arguments (if not b then none else x)
scoped-IsFine arguments true x f = f refl
scoped-IsFine arguments false x f = tt

traffic_words-IsFine :
    (a action : Text) (rest : List Text) (o : Option (Text × Text))
    → (a == lit "traffic") ≡ true
    → traffic_options rest (lit "user") (lit "out") ≡ o
    → IsFine (a ∷ action ∷ rest) (traffic_words action o)
unfolding all_values words_of
traffic_words-IsFine a action rest none t o = tt
traffic_words-IsFine a action rest (some (scope, direction)) t o =
    let given = traffic_options-Gives rest (lit "user") (lit "out") scope direction o in
    scoped-IsFine _ (is_scope scope) _ (λ s.
      choose-IsFine _ (action == lit "block" && is_direction direction) _ _
        (λ h.
          let (e, d) = both (action == lit "block") _ h in
          (
            (
              literal-IsWord (lit "traffic-block") refl,
              (
                field-IsWord (lit "scope=") scope refl (scope-IsValue scope s),
                (
                  field-IsWord (lit "direction=") direction refl (direction-IsValue direction d),
                  tt,
                ),
              ),
            ),
            inl (
              Proto.traffic_block scope direction,
              named a action (lit "traffic") (lit "block") rest (rw (t, e) refl)
                  (Stands.traffic_block rest scope direction given),
              parse_words-words_of (Proto.traffic_block scope direction) (s, d),
            ),
          ))
        (choose-IsFine _ (action == lit "unblock") _ none
          (λ h. (
            (
              literal-IsWord (lit "traffic-unblock") refl,
              (field-IsWord (lit "scope=") scope refl (scope-IsValue scope s), tt),
            ),
            inl (
              Proto.traffic_unblock scope,
              named a action (lit "traffic") (lit "unblock") rest (rw (t, h) refl)
                  (Stands.traffic_unblock rest scope direction given),
              parse_words-words_of (Proto.traffic_unblock scope) s,
            ),
          ))
          tt))

refuses :
    (arguments words : List Text)
    → IsUnnumbered arguments words
    → parse_words (lit "v1" ∷ words) ≡ Parsed.err malformed
unfolding parse_words text_eq
refuses arguments words (id, since, e, f, _) =
    ap (λ ws. parse_words (lit "v1" ∷ ws)) e ∙ ap (λ o. with_number o (Proto.audit_subscribe id)) f

-- The arm of `traffic status`
status_known :
    (a b : Text) (rest : List Text)
    → (a == lit "traffic" && (b == lit "status" && is_nil rest)) ≡ true
    → Stands (a ∷ b ∷ rest) Proto.status
status_known a b rest h = named_and a b (lit "traffic") (lit "status") rest (is_nil rest) h (
    subst (λ r. Stands (lit "traffic" ∷ lit "status" ∷ r) Proto.status)
      (sym (is_nil-eq-true rest (both _ _ (both (a == lit "traffic") _ h).1).1))
      Stands.traffic_status)

parse_command-IsFine :
    (arguments : List Text) → All IsWord arguments → IsFine arguments (parse_command arguments)
unfolding parse_command parse_traffic_command all_values parse_words text_eq
parse_command-IsFine [] w =
    ((literal-IsWord (lit "status") refl, tt), inl (Proto.status, Stands.nothing, refl))
parse_command-IsFine (a ∷ []) w = one-IsFine a
parse_command-IsFine (a ∷ b ∷ rest) w =
    choose-IsFine _ (a == lit "traffic" && (b == lit "status" && is_nil rest)) _ _
      (λ h. (
        (literal-IsWord (lit "status") refl, tt),
        inl (Proto.status, status_known a b rest h, refl),
      ))
      (choose-IsFine _ (a == lit "traffic") _ _
        (λ h. traffic_words-IsFine a b rest (traffic_options rest (lit "user") (lit "out")) h refl)
        (untraffic-IsFine a b rest w.1.1))

-- The daemon does what the command line asks for: if the arguments are words and stand for a command, then the frame of the command is parsed to the very request that the arguments name, with the numbers that they write and with the last scope and the last direction of the options, unless they subscribe to the log from a number that is none, and then the daemon finds the frame malformed.
pub parse-command_frame :
    (arguments words : List Text)
    → All IsWord arguments
    → parse_command arguments ≡ some words
    → ((request : Proto.Request) × Stands arguments request
        × (parse (command_frame words) ≡ ok request))
      ⊎ (IsUnnumbered arguments words × (parse (command_frame words) ≡ Parsed.err malformed))
unfolding parse all_values
parse-command_frame arguments words w e =
    let (fine, known) = subst (IsFine arguments) e (parse_command-IsFine arguments w) in
    let read =
      split_whitespace-frame_of (lit "v1" ∷ words) (literal-IsWord (lit "v1") refl, fine) in
    elim known [
      | inl (request, stands, f) ↦ inl (request, stands, ap parse_words read ∙ f)
      | inr u ↦ inr (u, ap parse_words read ∙ refuses arguments words u)
    ]
