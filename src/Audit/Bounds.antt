-- ===== src/Audit/Bounds.antt =====
-- The log is bounded in memory and on disk.
use inter_fire.Prelude.{
  ℕ, ◌+◌, ◌≡◌, ◌≤◌, ◌<◌, List, [], ◌∷◌, ◌++◌, Text, arith, ltb, leb, length, length-append,
  Bool-cases, inl, inr,
}
use inter_fire.Audit.{
  BoundedLogRecord, AuditLog, Written, done, byte_length, format_record, encode, encoded_size,
  trim_to, push_record, persist_record, append,
}

byte_length-append : (s t : Text) → byte_length (s ++ t) ≡ byte_length s + byte_length t
byte_length-append [] t = omega arith
byte_length-append (c ∷ s) t = omega (arith, byte_length-append s t)

byte_length-encode :
    (records : List BoundedLogRecord) → byte_length (encode records) ≡ encoded_size records
byte_length-encode [] = omega arith
byte_length-encode (r ∷ records) =
    omega (arith, byte_length-append (format_record r) (encode records), byte_length-encode records)

encoded_size-trim_to :
    (max_bytes : ℕ) (records : List BoundedLogRecord)
    → encoded_size (trim_to max_bytes records) ≤ max_bytes
unfolding trim_to
encoded_size-trim_to max_bytes [] = omega arith
encoded_size-trim_to max_bytes (r ∷ records) =
    elim (Bool-cases (leb (encoded_size (r ∷ records)) max_bytes)) [
      | inl e ↦ rw e (ground arith)
      | inr e ↦ rw e (encoded_size-trim_to max_bytes records)
    ]

length-trim_to :
    (max_bytes : ℕ) (records : List BoundedLogRecord)
    → length (trim_to max_bytes records) ≤ length records
unfolding trim_to
length-trim_to max_bytes [] = omega arith
length-trim_to max_bytes (r ∷ records) =
    elim (Bool-cases (leb (encoded_size (r ∷ records)) max_bytes)) [
      | inl e ↦ rw e (omega arith)
      | inr e ↦ rw e (omega (arith, length-trim_to max_bytes records))
    ]

length-push_record :
    (max_records : ℕ) (r : BoundedLogRecord) (records : List BoundedLogRecord)
    → 0 < max_records
    → length records ≤ max_records
    → length (push_record max_records r records) ≤ max_records
unfolding push_record
length-push_record max_records r [] p h = ground arith
length-push_record max_records r (oldest ∷ records) p h =
    ground (arith, length-append records (r ∷ []))

in_memory-append :
    (written : Written) (message : Text) (log : AuditLog)
    → 0 < log.max_records
    → length log.records ≤ log.max_records
    → length (append written message log).records ≤ log.max_records
unfolding append persist_record
in_memory-append written message log p h =
    let r : BoundedLogRecord = record { sequence = log.next_seq; message = message } in
    let records = push_record log.max_records r log.records in
    let short = length-push_record log.max_records r log.records p h in
    elim (Bool-cases (ltb log.max_bytes (byte_length log.file + byte_length (format_record r)))) [
      | inl e ↦ rw e (omega (arith, length-trim_to log.max_bytes records, short))
      | inr e ↦ rw e short
    ]

on_disk-append :
    (message : Text) (log : AuditLog) → byte_length (append done message log).file ≤ log.max_bytes
unfolding append persist_record
on_disk-append message log =
    let r : BoundedLogRecord = record { sequence = log.next_seq; message = message } in
    let trimmed = trim_to log.max_bytes (push_record log.max_records r log.records) in
    elim (Bool-cases (ltb log.max_bytes (byte_length log.file + byte_length (format_record r)))) [
      | inl e ↦ rw e (
          omega (
            arith,
            byte_length-encode trimmed,
            encoded_size-trim_to log.max_bytes (push_record log.max_records r log.records),
          ))
      | inr e ↦ rw e (ground (arith, byte_length-append log.file (format_record r)))
    ]

-- Appending bounds the log, whatever the length of the message: from a log with no more records in memory than the cap, there are no more afterwards, whether or not the writes of the file succeed and whatever a failed write leaves; and when they succeed, there are no more bytes than the cap on disk, however many there were before.
pub append-bounds :
    (written : Written) (message : Text) (log : AuditLog)
    → 0 < log.max_records
    → length log.records ≤ log.max_records
    → (length (append written message log).records ≤ log.max_records)
      × (byte_length (append done message log).file ≤ log.max_bytes)
append-bounds written message log p h =
    (in_memory-append written message log p h, on_disk-append message log)
