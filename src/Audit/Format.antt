-- ===== src/Audit/Format.antt =====
-- The file of the log is read back as its records.
use inter_fire.Prelude.{
  ℕ, ◌+◌, ◌-◌, ◌^◌, ◌≡◌, ◌≤◌, ◌<◌, refl, sym, ap, ◌∙◌, inl, false, Option, none, some, max, min,
  List, [], ◌∷◌, ◌++◌, map, join, arith, Text, lit, All, All-append, length, length-append,
  append_assoc, append-nil, nat_eq, show_nat, show_nat-IsDigits, show_nat-IsFree, IsDigits, IsFree,
  parse_uint-show_nat, read_lines, read_lines-line, ends_in_return, join-split_on, split_on,
}
use inter_fire.Audit.{
  AuditLog, BoundedLogRecord, format_record, parse_record, one_line, split_tab, record_of,
  parse_fields, encode, push_record, load_lines,
}

split_tab-IsDigits : (s t : Text) → IsDigits s → split_tab (s ++ (9 ∷ t)) ≡ some (s, t)
split_tab-IsDigits [] t h = refl
split_tab-IsDigits (c ∷ s) t h = ground (arith, split_tab-IsDigits s t h.2, h.0, h.1)

-- The text with its lines joined by blanks
abbrev pub lines_joined : Text → Text
lines_joined message = join (lit " ") (split_on 10 message)

-- What is read back of a record
abbrev pub stored : BoundedLogRecord → BoundedLogRecord
stored r = record { sequence = r.sequence; message = lines_joined r.message }

-- The number is one of 64 bits, and the message does not end in a carriage return.
abbrev pub IsStorable : BoundedLogRecord → Type 0
IsStorable r = (r.sequence ≤ 2 ^ 64 - 1) × (ends_in_return r.message ≡ false)

one_line-IsFree : (s : Text) → IsFree 10 (one_line s)
one_line-IsFree [] = tt
one_line-IsFree (c ∷ s) = (ground arith, one_line-IsFree s)

ends-one_line : (s : Text) → ends_in_return (one_line s) ≡ ends_in_return s
ends-one_line [] = refl
ends-one_line (c ∷ []) = ground arith
ends-one_line (c ∷ d ∷ s) = ends-one_line (d ∷ s)

ends-append : (s t : Text) (c : ℕ) → ends_in_return (s ++ (c ∷ t)) ≡ ends_in_return (c ∷ t)
ends-append [] t c = refl
ends-append (d ∷ []) t c = refl
ends-append (d ∷ e ∷ s) t c = ends-append (e ∷ s) t c

ends-tab : (t : Text) → ends_in_return t ≡ false → ends_in_return (9 ∷ t) ≡ false
ends-tab [] h = refl
ends-tab (c ∷ t) h = h

-- A record is one line of the file.
abbrev line_of : BoundedLogRecord → Text
line_of r = show_nat r.sequence ++ (9 ∷ one_line r.message)

format_record-line :
    (r : BoundedLogRecord) (rest : Text) → format_record r ++ rest ≡ line_of r ++ (10 ∷ rest)
unfolding format_record
format_record-line r rest =
    append_assoc (show_nat r.sequence) (9 ∷ (one_line r.message ++ 10 ∷ [])) rest
    ∙ ap (λ t. show_nat r.sequence ++ (9 ∷ t)) (append_assoc (one_line r.message) (10 ∷ []) rest)
    ∙ sym (append_assoc (show_nat r.sequence) (9 ∷ one_line r.message) (10 ∷ rest))

line_of-IsFree : (r : BoundedLogRecord) → IsFree 10 (line_of r)
line_of-IsFree r =
    All-append (λ c. nat_eq c 10 ≡ false) (show_nat r.sequence) (9 ∷ one_line r.message)
      (show_nat-IsFree 10 r.sequence (inl (omega arith))) (refl, one_line-IsFree r.message)

read_lines-format_record :
    (r : BoundedLogRecord) (rest : Text)
    → ends_in_return r.message ≡ false
    → read_lines (format_record r ++ rest) ≡ line_of r ∷ read_lines rest
read_lines-format_record r rest h =
    ap read_lines (format_record-line r rest)
    ∙ read_lines-line (line_of r) rest (line_of-IsFree r) (
        ends-append (show_nat r.sequence) (one_line r.message) 9
        ∙ ends-tab (one_line r.message) (ends-one_line r.message ∙ h))

parse_record-line_of :
    (r : BoundedLogRecord) → r.sequence ≤ 2 ^ 64 - 1 → parse_record (line_of r) ≡ some (stored r)
unfolding parse_record
parse_record-line_of r h =
    let number = show_nat r.sequence in
    let text = one_line r.message in
    ap parse_fields (split_tab-IsDigits number text (show_nat-IsDigits r.sequence))
    ∙ ap (λ n. record_of n text) (parse_uint-show_nat (2 ^ 64 - 1) r.sequence h)
    ∙ ap (λ m. some (record { sequence = r.sequence; message = m }))
        (sym (join-split_on 32 10 r.message))

push_record-below :
    (max_records : ℕ) (r : BoundedLogRecord) (records : List BoundedLogRecord)
    → length records < max_records
    → push_record max_records r records ≡ records ++ r ∷ []
unfolding push_record
push_record-below max_records r [] h = refl
push_record-below max_records r (oldest ∷ records) h = ground arith

-- The file that the log was written into is read back: from a log with room for the records, the lines of the file that holds them load the records, each once and in their order, with the numbers they had and with the lines of a message joined by blanks, if every number is one of 64 bits and no message ends in a carriage return.
pub load_lines-encode :
    (records : List BoundedLogRecord) (log : AuditLog)
    → All IsStorable records
    → length log.records + length records ≤ log.max_records
    → (load_lines (read_lines (encode records)) log).records ≡ log.records ++ map stored records
unfolding load_lines read_lines
load_lines-encode [] log s h = sym (append-nil log.records)
load_lines-encode (r ∷ records) log s h =
    let loaded = push_record log.max_records (stored r) log.records in
    let log' : AuditLog = record log {
      next_seq = max log.next_seq (min (r.sequence + 1) (2 ^ 64 - 1));
      records = loaded;
    } in
    let pushed = push_record-below log.max_records (stored r) log.records (omega (arith, h)) in
    let room : length loaded + length records ≤ log.max_records =
      rw pushed (omega (arith, length-append log.records (stored r ∷ []), h)) in
    ap (λ lines. (load_lines lines log).records) (read_lines-format_record r (encode records) s.0.1)
    ∙ ap (λ o. (load_one (read_lines (encode records)) log o).records)
        (parse_record-line_of r s.0.0)
    ∙ load_lines-encode records log' s.1 room
    ∙ ap (λ rs. rs ++ map stored records) pushed
    ∙ append_assoc log.records (stored r ∷ []) (map stored records)
  where
    load_one : List Text → AuditLog → Option BoundedLogRecord → AuditLog
    load_one lines log o = elim o [
      | none ↦ load_lines lines log
      | some r ↦ load_lines lines (record log {
        next_seq = max log.next_seq (min (r.sequence + 1) (2 ^ 64 - 1));
        records = push_record log.max_records r log.records;
      })
    ]
