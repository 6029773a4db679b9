-- ===== src/Proto/Client.antt =====
-- crates/interfire-proto/src/lib.rs: what the parsers of the clients share. Each response frame is a
-- version, a label and a payload; a body is a list of rows, or of fields `key=value`.
pub mod Lists
use inter_fire.Prelude.{
  ℕ, ◌-◌, ◌^◌, Bool, true, false, Option, none, some, List, [], ◌∷◌, Text, lit, eq_text, ◌==◌,
  if◌then◌else◌, starts_with, trim_end, splitn, split_on, split_whitespace, parse_uint, contains,
  eq_nat,
}
use inter_fire.Proto.{ProtocolError, malformed, unsupported_version}

-- `Result<A, ProtocolError>`
pub data Result {ℓ} (A : Type ℓ) : Type ℓ where
  ok : A → Result A
  err : ProtocolError → Result A

infixl 5 ◌>>=◌
abbrev pub ◌>>=◌ {ℓ κ} : {A : Type ℓ} {B : Type κ} → Result A → (A → Result B) → Result B
ok a >>= f = f a
err e >>= f = err e

-- `ok_or(ProtocolError::Malformed)`
abbrev pub ok_or {ℓ} : {A : Type ℓ} → Option A → Result A
ok_or none = err malformed
ok_or (some a) = ok a

abbrev pub parse_u32 : Text → Option ℕ
parse_u32 = parse_uint (2 ^ 32 - 1)

-- `collect` into a `Result<Vec<_>, _>`: the first error, if there is one
abbrev pub collect {ℓ} : {A : Type ℓ} → (Text → Result A) → List Text → Result (List A)
collect f [] = ok []
collect f (row ∷ rows) = do x ← f row; xs ← collect f rows; ok (x ∷ xs)

-- The match over the first field of a frame, and the test of the second
abbrev pub body_of : Text → List Text → Result (List Text)
body_of label [] = err malformed
body_of label (version ∷ fields) =
    if version == lit "v1"
    then (elim fields [
      | [] ↦ err malformed
      | name ∷ body ↦ if name == label then ok body else err malformed
    ])
    else if starts_with (b'v' ∷ []) version
    then err unsupported_version
    else err malformed

-- The frame of a list: its third field is the payload, and an empty one is no row.
abbrev pub payload_of : List Text → Text
payload_of [] = []
payload_of (payload ∷ _) = payload

abbrev pub rows_of {ℓ} : {A : Type ℓ} → ℕ → (Text → Result A) → Text → Result (List A)
rows_of sep parse_row [] = ok []
rows_of sep parse_row (c ∷ payload) = collect parse_row (split_on sep (c ∷ payload))

unfoldable pub parse_list {ℓ} : {A : Type ℓ} → ℕ → (Text → Result A) → Text → Text → Result (List A)
parse_list sep parse_row label frame = do
  body ← body_of label (splitn 3 b' ' (trim_end frame))
  rows_of sep parse_row (payload_of body)

-- The frame of fields `key=value`: `step` takes a field that it knows, and ignores another that has
-- an `=`.
abbrev pub fields_of {ℓ} : {S : Type ℓ} → (Text → S → Result S) → List Text → S → Result S
fields_of step [] s = ok s
fields_of step (field ∷ fields) s = step field s >>= fields_of step fields

-- The last two branches of the loops over the fields
abbrev pub unknown_field {ℓ} : {S : Type ℓ} → Text → S → Result S
unknown_field field s = if contains b'=' field then ok s else err malformed

unfoldable pub parse_fields {ℓ} : {S : Type ℓ} → (Text → S → Result S) → S → Text → Text → Result S
parse_fields step start label frame = do
  body ← body_of label (split_whitespace (trim_end frame))
  fields_of step body start
