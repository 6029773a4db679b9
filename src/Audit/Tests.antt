-- ===== src/Audit/Tests.antt =====
-- An audit log of two records and 64 bytes.
use inter_fire.Prelude.{refl, read_lines, split_on, join, length, ◌≤◌, ◌≡◌, [], ◌∷◌, arith, lit}
use inter_fire.Audit.{
  AuditLog, BoundedLogRecord, done, failed, byte_length, append, encode, load_lines,
}
use inter_fire.Audit.Bounds.{append-bounds}
use inter_fire.Audit.Format.{stored, load_lines-encode}

abbrev small_log : AuditLog
small_log = record {
  max_bytes = 64;
  max_records = 2;
  next_seq = 1;
  records = [];
  subscribers = [];
  file = [];
}

append-bounds_example :
    (length (append (failed (lit "1")) (lit "connect port=443") small_log).records ≤ 2)
    × (byte_length (append done (lit "connect port=443") small_log).file ≤ 64)
append-bounds_example =
    append-bounds (failed (lit "1")) (lit "connect port=443") small_log (omega arith) (omega arith)

abbrev logged_connect : BoundedLogRecord
logged_connect = record { sequence = 12; message = lit "connect\nport=443" }

abbrev room : AuditLog
room = record small_log { max_records = 9 }

load_lines-encode_example :
    (load_lines (read_lines (encode (logged_connect ∷ logged_connect ∷ []))) room).records
    ≡ stored logged_connect ∷ stored logged_connect ∷ []
load_lines-encode_example =
    load_lines-encode (logged_connect ∷ logged_connect ∷ []) room
      ((omega arith, refl), ((omega arith, refl), tt)) (omega arith)

one_blank : stored logged_connect ≡ record { sequence = 12; message = lit "connect port=443" }
unfolding split_on join
one_blank = refl
