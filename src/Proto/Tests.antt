-- ===== src/Proto/Tests.antt =====
-- A frame and a field through the socket.
use inter_fire.Prelude.{
  ◌≡◌, refl, join, map, nat_eq, is_eol, Bool, true, false, List, [], ◌∷◌, arith, lit, Text, any,
  not, ◌&&◌, is_whitespace, Bool-cases, inl, inr, sym, ap, ◌∙◌, show_nat, frame_of, none_satisfies,
  all_values, all_values-IsValue, All, IsWord,
}
use inter_fire.Proto.Client.{ok}
use inter_fire.Proto.Response.{Response, StatusBody, encode}
use inter_fire.Proto.Rows.{StatsRow, parse_stats, encode_stats_row}
use inter_fire.Proto.Rows.Stats.{parse_stats-encode}
use inter_fire.Proto.Status.{parse_status}
use inter_fire.Proto.Status.RoundTrip.{daemon_status, parse_status-encode}
use inter_fire.Proto.{Request, rule_add, Parsed, parse}
use inter_fire.Proto.Frames.{words_of, parse-frame_of}

abbrev request : Request
request = rule_add 7 (lit "/usr/bin/curl") (lit "allow") 443

abbrev is_empty : Text → Bool
is_empty [] = true
is_empty _ = false

all_words : List Text → Bool
all_words [] = true
all_words (s ∷ ws) = not (is_empty s) && (not (any is_whitespace s) && all_words ws)

all_words-IsWord : (ws : List Text) → all_words ws ≡ true → All IsWord ws
unfolding all_words
all_words-IsWord [] h = tt
all_words-IsWord ([] ∷ ws) h = cc
all_words-IsWord ((c ∷ s) ∷ ws) h = elim (Bool-cases (any is_whitespace (c ∷ s))) [
  | inl e ↦ let no : false ≡ true = sym (ap (λ b. not b && all_words ws) e) ∙ h in cc
  | inr e ↦ (
    ((λ p. cc), none_satisfies is_whitespace (c ∷ s) e),
    all_words-IsWord ws (sym (ap (λ b. not b && all_words ws) e) ∙ h),
  )
]

parse-frame_of_example : parse (frame_of (words_of request)) ≡ Parsed.ok request
parse-frame_of_example =
    parse-frame_of request (omega arith, omega arith)
      (all_words-IsWord (words_of request) (unfold words_of show_nat all_words in refl))

abbrev body : StatusBody
body = record {
  enforcement = lit "active";
  observation = lit "active";
  traffic = lit "out";
  traffic_machine = lit "open";
  traffic_user = lit "out";
  traffic_effective = lit "out";
  ipc_version = 1;
  pid = 4242;
  rss_kib = 9120;
  cpu_jiffies = 35;
}

parse_status-encode_example : parse_status (encode (Response.status body)) ≡ ok (daemon_status body)
parse_status-encode_example = parse_status-encode body (record {
  enforcement = all_values-IsValue (lit "active") (unfold all_values in refl);
  observation = all_values-IsValue (lit "active") (unfold all_values in refl);
  traffic = all_values-IsValue (lit "out") (unfold all_values in refl);
  traffic_machine = all_values-IsValue (lit "open") (unfold all_values in refl);
  traffic_user = all_values-IsValue (lit "out") (unfold all_values in refl);
  traffic_effective = all_values-IsValue (lit "out") (unfold all_values in refl);
  ipc_version = omega arith;
  pid = omega arith;
  rss_kib = omega arith;
  cpu_jiffies = omega arith;
})

-- Two keys, the second with all the separators
abbrev curl_row : StatsRow
curl_row = record { key = lit "/usr/bin/curl"; hits = 3; allow = 2; deny = 1; prompt = 0 }

abbrev odd_row : StatsRow
odd_row = record curl_row { key = lit "a|b;c%d e" }

parse_stats-encode_example :
    parse_stats
      (frame_of (
        lit "v1"
        ∷ lit "stats-procs"
        ∷ join (lit ";") (map encode_stats_row (curl_row ∷ odd_row ∷ []))
        ∷ []))
      (lit "stats-procs")
    ≡ ok (curl_row ∷ odd_row ∷ [])
parse_stats-encode_example =
    parse_stats-encode (lit "stats-procs") (curl_row ∷ odd_row ∷ [])
      (none_satisfies (λ c. nat_eq c b' ') (lit "stats-procs") refl)
      (none_satisfies is_eol (lit "stats-procs") refl)
      (
        record {
          hits = omega arith;
          allow = omega arith;
          deny = omega arith;
          prompt = omega arith;
          key = none_satisfies is_eol (lit "/usr/bin/curl") refl;
        },
        (
          record {
            hits = omega arith;
            allow = omega arith;
            deny = omega arith;
            prompt = omega arith;
            key = none_satisfies is_eol (lit "a|b;c%d e") refl;
          },
          tt,
        ),
      )
