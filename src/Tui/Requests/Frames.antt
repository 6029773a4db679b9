-- ===== src/Tui/Requests/Frames.antt =====
-- What the daemon reads from the client's requests.
use inter_fire.Prelude.{
  ℕ, ◌-◌, ◌^◌, ◌≡◌, ◌≤◌, refl, ap, ◌∙◌, sym, subst, List, [], ◌∷◌, ◌++◌, append_assoc, Text, lit,
  All, IsWord, IsValue, all_values, all_values-IsValue, literal-IsWord, field-IsWord, Bool-cases,
  inl, inr, ◌||◌, text_eq_iff, frame_of, split_whitespace-frame_of, show_nat, show_nat-IsWord,
  show_nat-ne-nil, text_eq, false, true,
}
use inter_fire.Proto
use inter_fire.Proto.{parse, parse_words, parse_command, parse_rule_add, malformed}
use inter_fire.Proto.Frames.{words_of, InRange, parse-frame_of}
use inter_fire.Tui.{
  IpcCommand, AnswerVerdict, AnswerScope, TrafficDirectionChoice, verdict_str, scope_str,
  direction_str, is_verdict,
}
use inter_fire.Tui.Commands.{IsSafe}
use inter_fire.Tui.Requests.{request_frame}

-- The request of the protocol that a command stands for
abbrev pub request_of : IpcCommand → Proto.Request
request_of IpcCommand.refresh_rules = Proto.rule_list
request_of IpcCommand.refresh_prompts = Proto.prompt_list
request_of (IpcCommand.delete_rule id) = Proto.rule_delete id
request_of (IpcCommand.add_rule id executable verdict port) =
    Proto.rule_add id executable verdict port
request_of (IpcCommand.answer_prompt id verdict scope) = Proto.prompt_answer id verdict scope
request_of (IpcCommand.traffic_block scope direction) = Proto.traffic_block scope direction
request_of (IpcCommand.traffic_unblock scope) = Proto.traffic_unblock scope

-- The id of a row that was received is of 64 bits, and the path of a new rule is one word.
abbrev pub IsSendable : IpcCommand → Type 0
IsSendable (IpcCommand.delete_rule id) = id ≤ 2 ^ 64 - 1
IsSendable (IpcCommand.add_rule id executable verdict port) = IsWord executable
IsSendable (IpcCommand.answer_prompt id verdict scope) = id ≤ 2 ^ 64 - 1
IsSendable _ = Unit

number-IsWord : (n : ℕ) → IsWord (show_nat n)
number-IsWord n = (show_nat-ne-nil n, show_nat-IsWord n)

verdict-IsWord : (word : Text) → is_verdict word ≡ true → IsWord word
unfolding all_values
verdict-IsWord word h = elim (Bool-cases (text_eq word (lit "allow"))) [
  | inl e ↦
      subst IsWord (sym ((text_eq_iff word (lit "allow")).0 e)) (literal-IsWord (lit "allow") refl)
  | inr e ↦ elim (Bool-cases (text_eq word (lit "deny"))) [
    | inl f ↦
        subst IsWord (sym ((text_eq_iff word (lit "deny")).0 f)) (literal-IsWord (lit "deny") refl)
    | inr f ↦
        subst IsWord (sym ((text_eq_iff word (lit "prompt")).0 (third e f)))
          (literal-IsWord (lit "prompt") refl)
  ]
]
  where
    third :
        text_eq word (lit "allow") ≡ false
        → text_eq word (lit "deny") ≡ false
        → text_eq word (lit "prompt") ≡ true
    third e f =
        sym (
          ap (λ b. b || (text_eq word (lit "deny") || text_eq word (lit "prompt"))) e
          ∙ ap (λ b. b || text_eq word (lit "prompt")) f)
        ∙ h

verdict_str-IsWord : (v : AnswerVerdict) → IsWord (verdict_str v)
unfolding all_values
verdict_str-IsWord AnswerVerdict.allow = literal-IsWord (lit "allow") refl
verdict_str-IsWord AnswerVerdict.deny = literal-IsWord (lit "deny") refl

scope_str-IsWord : (s : AnswerScope) → IsWord (scope_str s)
unfolding all_values
scope_str-IsWord AnswerScope.once = literal-IsWord (lit "once") refl
scope_str-IsWord AnswerScope.session = literal-IsWord (lit "session") refl
scope_str-IsWord AnswerScope.permanent = literal-IsWord (lit "permanent") refl

direction_str-IsValue : (d : TrafficDirectionChoice) → IsValue (direction_str d)
unfolding all_values
direction_str-IsValue TrafficDirectionChoice.out = all_values-IsValue (lit "out") refl
direction_str-IsValue TrafficDirectionChoice.in_ = all_values-IsValue (lit "in") refl
direction_str-IsValue TrafficDirectionChoice.all = all_values-IsValue (lit "all") refl

words-IsWord : (c : IpcCommand) → IsSafe c → IsSendable c → All IsWord (words_of (request_of c))
unfolding all_values words_of
words-IsWord IpcCommand.refresh_rules s w =
    (literal-IsWord (lit "v1") refl, (literal-IsWord (lit "rule-list") refl, tt))
words-IsWord IpcCommand.refresh_prompts s w =
    (literal-IsWord (lit "v1") refl, (literal-IsWord (lit "prompt-list") refl, tt))
words-IsWord (IpcCommand.delete_rule id) s w = (
  literal-IsWord (lit "v1") refl,
  (literal-IsWord (lit "rule-delete") refl, (number-IsWord id, tt)),
)
words-IsWord (IpcCommand.add_rule id executable verdict port) (i, a, v, p) w = (
  literal-IsWord (lit "v1") refl,
  (
    literal-IsWord (lit "rule-add") refl,
    (number-IsWord id, (w, (verdict-IsWord verdict v, (number-IsWord port, tt)))),
  ),
)
words-IsWord (IpcCommand.answer_prompt id verdict scope) ((v, e, _), (s, f, _)) w = (
  literal-IsWord (lit "v1") refl,
  (
    literal-IsWord (lit "prompt-answer") refl,
    (
      number-IsWord id,
      (
        subst IsWord (sym e) (verdict_str-IsWord v),
        (subst IsWord (sym f) (scope_str-IsWord s), tt),
      ),
    ),
  ),
)
words-IsWord (IpcCommand.traffic_block scope direction) (e, (d, f, _)) w = (
  literal-IsWord (lit "v1") refl,
  (
    literal-IsWord (lit "traffic-block") refl,
    (
      field-IsWord (lit "scope=") scope refl
          (subst IsValue (sym e) (all_values-IsValue (lit "user") refl)),
      (
        field-IsWord (lit "direction=") direction refl
            (subst IsValue (sym f) (direction_str-IsValue d)),
        tt,
      ),
    ),
  ),
)
words-IsWord (IpcCommand.traffic_unblock scope) e w = (
  literal-IsWord (lit "v1") refl,
  (
    literal-IsWord (lit "traffic-unblock") refl,
    (
      field-IsWord (lit "scope=") scope refl
          (subst IsValue (sym e) (all_values-IsValue (lit "user") refl)),
      tt,
    ),
  ),
)

request-InRange : (c : IpcCommand) → IsSafe c → IsSendable c → InRange (request_of c)
unfolding text_eq
request-InRange IpcCommand.refresh_rules s w = tt
request-InRange IpcCommand.refresh_prompts s w = tt
request-InRange (IpcCommand.delete_rule id) s w = w
request-InRange (IpcCommand.add_rule id executable verdict port) (i, a, v, p) w = (i, p)
request-InRange (IpcCommand.answer_prompt id verdict scope) s w = w
request-InRange (IpcCommand.traffic_block scope direction) (e, (d, f, k)) w =
    (ap Proto.is_scope e, k)
request-InRange (IpcCommand.traffic_unblock scope) e w = ap Proto.is_scope e

request_frame-words : (c : IpcCommand) → request_frame c ≡ frame_of (words_of (request_of c))
unfolding request_frame words_of
request_frame-words IpcCommand.refresh_rules = refl
request_frame-words IpcCommand.refresh_prompts = refl
request_frame-words (IpcCommand.delete_rule id) = refl
request_frame-words (IpcCommand.add_rule id executable verdict port) = refl
request_frame-words (IpcCommand.answer_prompt id verdict scope) = refl
request_frame-words (IpcCommand.traffic_block scope direction) = refl
request_frame-words (IpcCommand.traffic_unblock scope) = refl

-- The daemon understands the client: the frame that a command of the keys writes is parsed to the request that the command stands for, if an id that it names was one of 64 bits and the path of a new rule is one word.
pub parse-request_frame :
    (c : IpcCommand) → IsSafe c → IsSendable c → parse (request_frame c) ≡ Proto.ok (request_of c)
parse-request_frame c s w =
    ap parse (request_frame-words c)
    ∙ parse-frame_of (request_of c) (request-InRange c s w) (words-IsWord c s w)

-- A rule for a path with a blank cannot be added: the form accepts it, and the daemon finds the frame malformed.
pub parse-request_frame_blank :
    (id : ℕ) (front back verdict : Text) (port : ℕ)
    → IsWord front
    → IsWord back
    → is_verdict verdict ≡ true
    → parse (request_frame (IpcCommand.add_rule id (front ++ (b' ' ∷ back)) verdict port))
      ≡ Proto.err malformed
unfolding request_frame parse parse_words parse_command parse_rule_add text_eq all_values
parse-request_frame_blank id front back verdict port f b v =
    let words : List Text =
      lit "v1" ∷ lit "rule-add" ∷ show_nat id ∷ front ∷ back ∷ verdict ∷ show_nat port ∷ [] in
    ap (λ t. parse (lit "v1 rule-add " ++ (show_nat id ++ (b' ' ∷ t))))
      (append_assoc front (b' ' ∷ back) _)
    ∙ ap parse_words (
        split_whitespace-frame_of words (
          literal-IsWord (lit "v1") refl,
          (
            literal-IsWord (lit "rule-add") refl,
            (number-IsWord id, (f, (b, (verdict-IsWord verdict v, (number-IsWord port, tt))))),
          ),
        ))
