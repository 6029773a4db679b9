-- ===== src/Ctl/Stands.antt =====
-- crates/interfirectl/src/main.rs: the requests that the arguments of the command line stand for, one
-- constructor for each command that there is.
use inter_fire.Prelude.{
  ℕ, nat_eq, nat_eq_iff, ◌≡◌, ◌∙◌, refl, sym, ap, subst, Bool, Bool-cases, inl, inr, true, false,
  ◌&&◌, Option, none, some, List, [], ◌∷◌, ◌++◌, Text, lit, eq_text, ◌==◌, text_eq_iff,
  if◌then◌else◌, strip_prefix,
}
use inter_fire.Proto
use inter_fire.Proto.{parse_u64, parse_u16}
use inter_fire.Ctl.{traffic_options, is_nil}

-- The options from a scope and a direction on give a scope and a direction: the last ones of each.
pub data Gives : List Text → Text → Text → Text → Text → Type 0 where
  last : {scope direction : Text} → Gives [] scope direction scope direction
  scoped :
      {rest : List Text} {old direction scope' direction' : Text} (scope : Text)
      → Gives rest scope direction scope' direction'
      → Gives ((lit "--scope=" ++ scope) ∷ rest) old direction scope' direction'
  directed :
      {rest : List Text} {scope old scope' direction' : Text} (direction : Text)
      → Gives rest scope direction scope' direction'
      → Gives ((lit "--direction=" ++ direction) ∷ rest) scope old scope' direction'

pub data Stands : List Text → Proto.Request → Type 0 where
  nothing : Stands [] Proto.status
  ping : Stands (lit "ping" ∷ []) Proto.ping
  status : Stands (lit "status" ∷ []) Proto.status
  pause : Stands (lit "pause" ∷ []) Proto.pause
  resume : Stands (lit "resume" ∷ []) Proto.resume
  rules_list : Stands (lit "rules" ∷ lit "list" ∷ []) Proto.rule_list
  rules_delete :
      (id : Text) (n : ℕ)
      → parse_u64 id ≡ some n
      → Stands (lit "rules" ∷ lit "delete" ∷ id ∷ []) (Proto.rule_delete n)
  rules_add :
      (id executable verdict port : Text) (n p : ℕ)
      → parse_u64 id ≡ some n
      → parse_u16 port ≡ some p
      → Stands
          (lit "rules" ∷ lit "add" ∷ id ∷ executable ∷ verdict ∷ port ∷ [])
          (Proto.rule_add n executable verdict p)
  prompts_list : Stands (lit "prompts" ∷ lit "list" ∷ []) Proto.prompt_list
  prompts_answer :
      (id verdict scope : Text) (n : ℕ)
      → parse_u64 id ≡ some n
      → Stands
          (lit "prompts" ∷ lit "answer" ∷ id ∷ verdict ∷ scope ∷ [])
          (Proto.prompt_answer n verdict scope)
  dns_list : Stands (lit "dns" ∷ lit "list" ∷ []) Proto.dns_list
  dns_note :
      (hostname ipv4 : Text)
      → Stands (lit "dns" ∷ lit "note" ∷ hostname ∷ ipv4 ∷ []) (Proto.dns_note hostname ipv4 none)
  dns_note_for :
      (hostname ipv4 ttl : Text) (n : ℕ)
      → parse_u64 ttl ≡ some n
      → Stands
          (lit "dns" ∷ lit "note" ∷ hostname ∷ ipv4 ∷ ttl ∷ [])
          (Proto.dns_note hostname ipv4 (some n))
  audit_tail : Stands (lit "audit" ∷ lit "tail" ∷ []) (Proto.audit_tail 2000)
  audit_tail_of :
      (limit : Text) (n : ℕ)
      → parse_u64 limit ≡ some n
      → Stands (lit "audit" ∷ lit "tail" ∷ limit ∷ []) (Proto.audit_tail n)
  audit_subscribe :
      (id : Text) → Stands (lit "audit" ∷ lit "subscribe" ∷ id ∷ []) (Proto.audit_subscribe id 0)
  audit_subscribe_since :
      (id since : Text) (n : ℕ)
      → parse_u64 since ≡ some n
      → Stands
          (lit "audit" ∷ lit "subscribe" ∷ id ∷ (lit "since=" ++ since) ∷ [])
          (Proto.audit_subscribe id n)
  network_status : Stands (lit "network" ∷ lit "status" ∷ []) Proto.network_status
  network_install : Stands (lit "network" ∷ lit "install" ∷ []) Proto.network_install
  network_remove : Stands (lit "network" ∷ lit "remove" ∷ []) Proto.network_remove
  traffic_status : Stands (lit "traffic" ∷ lit "status" ∷ []) Proto.status
  traffic_block :
      (options : List Text) (scope direction : Text)
      → Gives options (lit "user") (lit "out") scope direction
      → Stands (lit "traffic" ∷ lit "block" ∷ options) (Proto.traffic_block scope direction)
  traffic_unblock :
      (options : List Text) (scope direction : Text)
      → Gives options (lit "user") (lit "out") scope direction
      → Stands (lit "traffic" ∷ lit "unblock" ∷ options) (Proto.traffic_unblock scope)

pub both : (b c : Bool) → b && c ≡ true → (b ≡ true) × (c ≡ true)
both true c h = (refl, h)
both false c h = cc

-- The first two arguments are the two words that they were tested against.
pub words_tested :
    (a b x y : Text) (rest : List Text) (more : Bool)
    → (a == x && (b == y && more)) ≡ true
    → a ∷ b ∷ rest ≡ x ∷ y ∷ rest
words_tested a b x y rest more h =
    let (e, f) = both (a == x) (b == y && more) h in
    let same : a ≡ x = (text_eq_iff a x).0 e in
    let same' : b ≡ y = (text_eq_iff b y).0 (both (b == y) more f).0 in λ i. same i ∷ same' i ∷ rest

pub named_and :
    (a b x y : Text) (rest : List Text) (more : Bool) {r : Proto.Request}
    → (a == x && (b == y && more)) ≡ true
    → Stands (x ∷ y ∷ rest) r
    → Stands (a ∷ b ∷ rest) r
named_and a b x y rest more {r} h s =
    subst (λ arguments. Stands arguments r) (sym (words_tested a b x y rest more h)) s

pub named :
    (a b x y : Text) (rest : List Text) {r : Proto.Request}
    → (a == x && b == y) ≡ true
    → Stands (x ∷ y ∷ rest) r
    → Stands (a ∷ b ∷ rest) r
named a b x y rest h s =
    let (e, f) = both (a == x) (b == y) h in named_and a b x y rest true (rw (e, f) refl) s

pub is_nil-eq-true : (rest : List Text) → is_nil rest ≡ true → rest ≡ []
is_nil-eq-true [] h = refl
is_nil-eq-true (x ∷ rest) h = cc

pub strip_prefix-eq-some : (p s value : Text) → strip_prefix p s ≡ some value → s ≡ p ++ value
unfolding strip_prefix
strip_prefix-eq-some [] s value h = cc
strip_prefix-eq-some (c ∷ p) [] value h = cc
strip_prefix-eq-some (c ∷ p) (d ∷ s) value h = elim (Bool-cases (nat_eq c d)) [
  | inl e ↦
      let same : c ≡ d = (nat_eq_iff c d).0 e in
      let rest =
        strip_prefix-eq-some p s value
          (ap (λ b. if b then strip_prefix p s else none) (sym e) ∙ h) in
      λ i. sym same i ∷ rest i
  | inr e ↦ absurd (none-ne-some (ap (λ b. if b then strip_prefix p s else none) (sym e) ∙ h))
]
  where
    none-ne-some : none ≡ some value → ⊥
    none-ne-some k = cc

traffic_options-step :
    (argument : Text) (rest : List Text) (scope direction scope' direction' : Text)
    → ((s d : Text)
        → traffic_options rest s d ≡ some (scope', direction')
        → Gives rest s d scope' direction')
    → traffic_options (argument ∷ rest) scope direction ≡ some (scope', direction')
    → Gives (argument ∷ rest) scope direction scope' direction'
traffic_options-step argument rest scope direction scope' direction' deeper h =
    first (strip_prefix (lit "--scope=") argument) refl h
  where
    second :
        (o : Option Text)
        → strip_prefix (lit "--direction=") argument ≡ o
        → (elim o [ some value ↦ traffic_options rest scope value | none ↦ none ])
          ≡ some (scope', direction')
        → Gives (argument ∷ rest) scope direction scope' direction'
    second none e k = cc
    second (some value) e k =
        subst (λ a. Gives (a ∷ rest) scope direction scope' direction')
          (sym (strip_prefix-eq-some (lit "--direction=") argument value e))
          (directed value (deeper scope value k))

    first :
        (o : Option Text)
        → strip_prefix (lit "--scope=") argument ≡ o
        → (elim o [
          | some value ↦ traffic_options rest value direction
          | none ↦ elim (strip_prefix (lit "--direction=") argument) [
            | some value ↦ traffic_options rest scope value
            | none ↦ none
          ]
        ])
          ≡ some (scope', direction')
        → Gives (argument ∷ rest) scope direction scope' direction'
    first none e k = second (strip_prefix (lit "--direction=") argument) refl k
    first (some value) e k =
        subst (λ a. Gives (a ∷ rest) scope direction scope' direction')
          (sym (strip_prefix-eq-some (lit "--scope=") argument value e))
          (scoped value (deeper value direction k))

-- The loop over the options computes what they give.
pub traffic_options-Gives :
    (options : List Text) (scope direction scope' direction' : Text)
    → traffic_options options scope direction ≡ some (scope', direction')
    → Gives options scope direction scope' direction'
traffic_options-Gives [] scope direction scope' direction' h =
    let pair : ◌≡◌ {A = Text × Text} (scope, direction) (scope', direction') = cc in
    subst (λ r. Gives [] scope direction r.0 r.1) pair last
traffic_options-Gives (argument ∷ rest) scope direction scope' direction' h =
    traffic_options-step argument rest scope direction scope' direction'
      (λ s d. traffic_options-Gives rest s d scope' direction') h
