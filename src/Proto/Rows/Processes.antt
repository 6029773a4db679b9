-- ===== src/Proto/Rows/Processes.antt =====
-- `encode_row` and `parse_frame` of the rows of the processes.
use inter_fire.Prelude.{
  ℕ, ◌-◌, ◌^◌, ◌≡◌, ◌≤◌, refl, ap, ◌∙◌, [], ◌∷◌, map, lit, All, join, splitn-join, show_nat,
  show_nat-IsFree, show_nat-IsLine, parse_uint-show_nat, IsFree, IsLine, is_eol, false, nat_eq, inr,
  arith, frame_of, List,
}
use inter_fire.Proto.Escape.{unescape_field-escape_field}
use inter_fire.Proto.Escape.Clean.{
  escape_field-IsFree_bar, escape_field-IsFree_semicolon, escape_field-IsLine,
}
use inter_fire.Proto.Client.{ok, ◌>>=◌, ok_or}
use inter_fire.Proto.Client.Lists.{
  join-All, join_two-ne-nil, All-mono, map_id, IsRow, parse_list-frame_of,
}
use inter_fire.Proto.Rows.{
  ProcessRow, process_parts, parse_process_row, parse_processes, process_columns,
  encode_process_row,
}

-- The numbers fit their types, the texts stand on one line, and the verdict and the destinations,
-- which are not escaped, hold neither a bar nor a semicolon.
pub record IsProcess (row : ProcessRow) : Type 0 where
  pub pid : row.pid ≤ 2 ^ 32 - 1
  pub start_ticks : row.start_ticks ≤ 2 ^ 64 - 1
  pub uid : row.uid ≤ 2 ^ 32 - 1
  pub executable : IsLine row.executable
  pub cmdline : IsLine row.cmdline
  pub verdict : IsLine row.verdict × IsFree b'|' row.verdict × IsFree b';' row.verdict
  pub ports : IsLine row.ports × IsFree b'|' row.ports × IsFree b';' row.ports

bar : (n : ℕ) → IsFree b'|' (show_nat n)
bar n = show_nat-IsFree b'|' n (inr (omega arith))

parse-encode :
    (row : ProcessRow) → IsProcess row → parse_process_row (encode_process_row row) ≡ ok row
unfolding parse_process_row encode_process_row
parse-encode row v =
    ap process_parts (
      splitn-join b'|' (process_columns row)
        (
          bar row.pid,
          (
            bar row.start_ticks,
            (bar row.uid, (v.verdict.1, (v.ports.1, (escape_field-IsFree_bar row.executable, tt)))),
          ),
        )
        (λ e. cc))
    ∙ (λ i. do
      p ← ok_or (parse_uint-show_nat (2 ^ 32 - 1) row.pid v.pid i)
      t ← ok_or (parse_uint-show_nat (2 ^ 64 - 1) row.start_ticks v.start_ticks i)
      u ← ok_or (parse_uint-show_nat (2 ^ 32 - 1) row.uid v.uid i)
      ok (record {
        pid = p;
        start_ticks = t;
        uid = u;
        executable = unescape_field-escape_field row.executable i;
        cmdline = unescape_field-escape_field row.cmdline i;
        verdict = row.verdict;
        ports = row.ports;
      }))

encode-IsRow :
    (row : ProcessRow)
    → IsProcess row
    → IsRow b';' parse_process_row encode_process_row (λ r. r) row
unfolding encode_process_row
encode-IsRow row v = record {
  reads = parse-encode row v;
  there = join_two-ne-nil b'|' (show_nat row.pid) (show_nat row.start_ticks) _;
  line =
      join-All (λ c. is_eol c ≡ false) b'|' (process_columns row) refl
        (
          show_nat-IsLine row.pid,
          (
            show_nat-IsLine row.start_ticks,
            (
              show_nat-IsLine row.uid,
              (
                v.verdict.0,
                (
                  v.ports.0,
                  (
                    escape_field-IsLine row.executable v.executable,
                    (escape_field-IsLine row.cmdline v.cmdline, tt),
                  ),
                ),
              ),
            ),
          ),
        );
  free =
      join-All (λ c. nat_eq c b';' ≡ false) b'|' (process_columns row) refl
        (
          other row.pid,
          (
            other row.start_ticks,
            (
              other row.uid,
              (
                v.verdict.2,
                (
                  v.ports.2,
                  (
                    escape_field-IsFree_semicolon row.executable,
                    (escape_field-IsFree_semicolon row.cmdline, tt),
                  ),
                ),
              ),
            ),
          ),
        );
}
  where
    other : (n : ℕ) → IsFree b';' (show_nat n)
    other n = show_nat-IsFree b';' n (inr (omega arith))

pub parse_processes-encode :
    (rows : List ProcessRow)
    → All IsProcess rows
    → parse_processes
        (frame_of (lit "v1" ∷ lit "processes" ∷ join (lit ";") (map encode_process_row rows) ∷ []))
      ≡ ok rows
unfolding parse_processes
parse_processes-encode rows v =
    parse_list-frame_of b';' parse_process_row encode_process_row (λ r. r) (lit "processes") rows
      (refl, (refl, (refl, (refl, (refl, (refl, (refl, (refl, (refl, tt)))))))))
      (refl, (refl, (refl, (refl, (refl, (refl, (refl, (refl, (refl, tt))))))))) refl
      (All-mono (IsRow b';' parse_process_row encode_process_row (λ r. r)) IsProcess encode-IsRow
        rows v)
    ∙ ap ok (map_id rows)
