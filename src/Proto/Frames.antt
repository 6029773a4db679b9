-- ===== src/Proto/Frames.antt =====
-- Printing a request and parsing the frame gives the request back.
use inter_fire.Prelude.{
  ◌-◌, ◌^◌, ◌≡◌, ◌≤◌, refl, ap, ◌∙◌, true, none, some, List, [], ◌∷◌, ◌++◌, Text, lit, eq_text,
  strip_prefix, strip_prefix-append, parse_uint-show_nat, show_nat, text_eq, All, IsWord, frame_of,
  split_whitespace-frame_of,
}
use inter_fire.Proto.{
  Request, ping, status, rule_list, prompt_list, dns_list, process_list, network_status,
  network_install, network_remove, pause, resume, stats_summary, stats_hosts, stats_procs,
  stats_addrs, stats_ports, stats_users, rule_add, rule_delete, prompt_answer, dns_note, audit_tail,
  audit_subscribe, traffic_block, traffic_unblock, ok, with_number, with_numbers, since_of,
  is_scope, is_direction, parse, parse_words, parse_command, parse_rule_add, parse_rule_delete,
  parse_prompt_answer, parse_dns_note, parse_audit_tail, parse_audit_subscribe, parse_traffic_block,
  parse_traffic_unblock,
}

-- The words of a request, as the clients write them
unfoldable pub words_of : Request → List Text
words_of ping = lit "v1" ∷ lit "ping" ∷ []
words_of status = lit "v1" ∷ lit "status" ∷ []
words_of rule_list = lit "v1" ∷ lit "rule-list" ∷ []
words_of prompt_list = lit "v1" ∷ lit "prompt-list" ∷ []
words_of dns_list = lit "v1" ∷ lit "dns-list" ∷ []
words_of process_list = lit "v1" ∷ lit "process-list" ∷ []
words_of network_status = lit "v1" ∷ lit "network-status" ∷ []
words_of network_install = lit "v1" ∷ lit "network-install" ∷ []
words_of network_remove = lit "v1" ∷ lit "network-remove" ∷ []
words_of pause = lit "v1" ∷ lit "pause" ∷ []
words_of resume = lit "v1" ∷ lit "resume" ∷ []
words_of stats_summary = lit "v1" ∷ lit "stats-summary" ∷ []
words_of stats_hosts = lit "v1" ∷ lit "stats-hosts" ∷ []
words_of stats_procs = lit "v1" ∷ lit "stats-procs" ∷ []
words_of stats_addrs = lit "v1" ∷ lit "stats-addrs" ∷ []
words_of stats_ports = lit "v1" ∷ lit "stats-ports" ∷ []
words_of stats_users = lit "v1" ∷ lit "stats-users" ∷ []
words_of (rule_add id executable verdict port) =
    lit "v1" ∷ lit "rule-add" ∷ show_nat id ∷ executable ∷ verdict ∷ show_nat port ∷ []
words_of (rule_delete id) = lit "v1" ∷ lit "rule-delete" ∷ show_nat id ∷ []
words_of (prompt_answer id verdict scope) =
    lit "v1" ∷ lit "prompt-answer" ∷ show_nat id ∷ verdict ∷ scope ∷ []
words_of (dns_note hostname ipv4 none) = lit "v1" ∷ lit "dns-note" ∷ hostname ∷ ipv4 ∷ []
words_of (dns_note hostname ipv4 (some ttl)) =
    lit "v1" ∷ lit "dns-note" ∷ hostname ∷ ipv4 ∷ show_nat ttl ∷ []
words_of (audit_tail limit) = lit "v1" ∷ lit "audit-tail" ∷ show_nat limit ∷ []
words_of (audit_subscribe id since) =
    lit "v1" ∷ lit "audit-subscribe" ∷ id ∷ (lit "since=" ++ show_nat since) ∷ []
words_of (traffic_block scope direction) =
    lit "v1" ∷ lit "traffic-block" ∷ (lit "scope=" ++ scope) ∷ (lit "direction=" ++ direction) ∷ []
words_of (traffic_unblock scope) = lit "v1" ∷ lit "traffic-unblock" ∷ (lit "scope=" ++ scope) ∷ []

-- The numbers fit their types, and the words of a traffic request are known.
abbrev pub InRange : Request → Type 0
InRange (rule_add id executable verdict port) = (id ≤ 2 ^ 64 - 1) × (port ≤ 2 ^ 16 - 1)
InRange (rule_delete id) = id ≤ 2 ^ 64 - 1
InRange (prompt_answer id verdict scope) = id ≤ 2 ^ 64 - 1
InRange (dns_note hostname ipv4 (some ttl)) = ttl ≤ 2 ^ 64 - 1
InRange (audit_tail limit) = limit ≤ 2 ^ 64 - 1
InRange (audit_subscribe id since) = since ≤ 2 ^ 64 - 1
InRange (traffic_block scope direction) = (is_scope scope ≡ true) × (is_direction direction ≡ true)
InRange (traffic_unblock scope) = is_scope scope ≡ true
InRange _ = Unit

pub parse_words-words_of : (r : Request) → InRange r → parse_words (words_of r) ≡ ok r
unfolding parse_words parse_command words_of text_eq parse_rule_add parse_rule_delete
    parse_prompt_answer parse_dns_note parse_audit_tail parse_audit_subscribe parse_traffic_block
    parse_traffic_unblock strip_prefix
parse_words-words_of ping h = refl
parse_words-words_of status h = refl
parse_words-words_of rule_list h = refl
parse_words-words_of prompt_list h = refl
parse_words-words_of dns_list h = refl
parse_words-words_of process_list h = refl
parse_words-words_of network_status h = refl
parse_words-words_of network_install h = refl
parse_words-words_of network_remove h = refl
parse_words-words_of pause h = refl
parse_words-words_of resume h = refl
parse_words-words_of stats_summary h = refl
parse_words-words_of stats_hosts h = refl
parse_words-words_of stats_procs h = refl
parse_words-words_of stats_addrs h = refl
parse_words-words_of stats_ports h = refl
parse_words-words_of stats_users h = refl
parse_words-words_of (rule_add id executable verdict port) (h, k) = λ i.
    with_numbers (parse_uint-show_nat (2 ^ 64 - 1) id h i)
      (parse_uint-show_nat (2 ^ 16 - 1) port k i) (λ n p. rule_add n executable verdict p)
parse_words-words_of (rule_delete id) h =
    ap (λ o. with_number o rule_delete) (parse_uint-show_nat (2 ^ 64 - 1) id h)
parse_words-words_of (prompt_answer id verdict scope) h =
    ap (λ o. with_number o (λ n. prompt_answer n verdict scope))
      (parse_uint-show_nat (2 ^ 64 - 1) id h)
parse_words-words_of (dns_note hostname ipv4 none) h = refl
parse_words-words_of (dns_note hostname ipv4 (some ttl)) h =
    ap (λ o. with_number o (λ n. dns_note hostname ipv4 (some n)))
      (parse_uint-show_nat (2 ^ 64 - 1) ttl h)
parse_words-words_of (audit_tail limit) h =
    ap (λ o. with_number o audit_tail) (parse_uint-show_nat (2 ^ 64 - 1) limit h)
parse_words-words_of (audit_subscribe id since) h =
    ap (λ o. with_number (since_of o) (λ n. audit_subscribe id n))
      (strip_prefix-append (lit "since=") (show_nat since))
    ∙ ap (λ o. with_number o (λ n. audit_subscribe id n)) (parse_uint-show_nat (2 ^ 64 - 1) since h)
parse_words-words_of (traffic_block scope direction) (h, k) = rw (h, k) refl
parse_words-words_of (traffic_unblock scope) h = rw h refl

-- A request goes through the socket: the frame that is written for it, one line of its words with blanks between them, is parsed to the same request, if its numbers fit their types and its texts are words.
pub parse-frame_of :
    (r : Request) → InRange r → All IsWord (words_of r) → parse (frame_of (words_of r)) ≡ ok r
unfolding parse
parse-frame_of r h w =
    ap parse_words (split_whitespace-frame_of (words_of r) w) ∙ parse_words-words_of r h
