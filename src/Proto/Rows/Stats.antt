-- ===== src/Proto/Rows/Stats.antt =====
-- `encode_row` and `parse_frame` of the rows of the statistics.
use inter_fire.Prelude.{
  ℕ, ◌-◌, ◌^◌, ◌≡◌, ◌≤◌, refl, ap, ◌∙◌, [], ◌∷◌, map, Text, lit, All, join, splitn-join, show_nat,
  show_nat-IsFree, show_nat-IsLine, parse_uint-show_nat, IsFree, IsLine, is_eol, false, nat_eq, inr,
  arith, frame_of, List,
}
use inter_fire.Proto.Escape.{escape_field, unescape_field-escape_field}
use inter_fire.Proto.Escape.Clean.{
  escape_field-IsFree_bar, escape_field-IsFree_semicolon, escape_field-IsLine,
}
use inter_fire.Proto.Client.{ok, ◌>>=◌, ok_or}
use inter_fire.Proto.Client.Lists.{
  join-All, join_two-ne-nil, All-mono, map_id, IsRow, parse_list-frame_of,
}
use inter_fire.Proto.Rows.{
  StatsRow, stats_parts, parse_stats_row, parse_stats, stats_columns, encode_stats_row,
}

-- The counters are of 64 bits, and the key stands on one line.
pub record IsStats (row : StatsRow) : Type 0 where
  pub hits : row.hits ≤ 2 ^ 64 - 1
  pub allow : row.allow ≤ 2 ^ 64 - 1
  pub deny : row.deny ≤ 2 ^ 64 - 1
  pub prompt : row.prompt ≤ 2 ^ 64 - 1
  pub key : IsLine row.key

number-IsFree : (n : ℕ) → IsFree b'|' (show_nat n)
number-IsFree n = show_nat-IsFree b'|' n (inr (omega arith))

parse-encode : (row : StatsRow) → IsStats row → parse_stats_row (encode_stats_row row) ≡ ok row
unfolding parse_stats_row encode_stats_row
parse-encode row v =
    ap stats_parts (
      splitn-join b'|' (stats_columns row)
        (
          escape_field-IsFree_bar row.key,
          (number-IsFree row.hits, (number-IsFree row.allow, (number-IsFree row.deny, tt))),
        )
        (λ e. cc))
    ∙ (λ i. do
      h ← ok_or (parse_uint-show_nat (2 ^ 64 - 1) row.hits v.hits i)
      a ← ok_or (parse_uint-show_nat (2 ^ 64 - 1) row.allow v.allow i)
      d ← ok_or (parse_uint-show_nat (2 ^ 64 - 1) row.deny v.deny i)
      p ← ok_or (parse_uint-show_nat (2 ^ 64 - 1) row.prompt v.prompt i)
      ok (record {
        key = unescape_field-escape_field row.key i;
        hits = h;
        allow = a;
        deny = d;
        prompt = p;
      }))

encode-IsRow :
    (row : StatsRow) → IsStats row → IsRow b';' parse_stats_row encode_stats_row (λ r. r) row
unfolding encode_stats_row
encode-IsRow row v = record {
  reads = parse-encode row v;
  there = join_two-ne-nil b'|' (escape_field row.key) (show_nat row.hits) _;
  line =
      join-All (λ c. is_eol c ≡ false) b'|' (stats_columns row) refl
        (
          escape_field-IsLine row.key v.key,
          (
            show_nat-IsLine row.hits,
            (
              show_nat-IsLine row.allow,
              (show_nat-IsLine row.deny, (show_nat-IsLine row.prompt, tt)),
            ),
          ),
        );
  free =
      join-All (λ c. nat_eq c b';' ≡ false) b'|' (stats_columns row) refl
        (
          escape_field-IsFree_semicolon row.key,
          (other row.hits, (other row.allow, (other row.deny, (other row.prompt, tt)))),
        );
}
  where
    other : (n : ℕ) → IsFree b';' (show_nat n)
    other n = show_nat-IsFree b';' n (inr (omega arith))

-- The rows of the statistics go through their frame: from the line `v1 <label> <rows>` that the daemon sends, a client reads the same rows, in their order, whatever bars, semicolons and percent signs their keys hold, if no key breaks the line and every counter is of 64 bits.
pub parse_stats-encode :
    (label : Text) (rows : List StatsRow)
    → IsFree b' ' label
    → IsLine label
    → All IsStats rows
    → parse_stats
        (frame_of (lit "v1" ∷ label ∷ join (lit ";") (map encode_stats_row rows) ∷ []))
        label
      ≡ ok rows
unfolding parse_stats
parse_stats-encode label rows word line v =
    parse_list-frame_of b';' parse_stats_row encode_stats_row (λ r. r) label rows word line refl
      (All-mono (IsRow b';' parse_stats_row encode_stats_row (λ r. r)) IsStats encode-IsRow rows v)
    ∙ ap ok (map_id rows)
