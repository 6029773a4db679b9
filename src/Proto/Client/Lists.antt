-- ===== src/Proto/Client/Lists.antt =====
-- A list of rows through a frame.
use inter_fire.Prelude.{
  ℕ, ◌≡◌, ◌≢◌, refl, ap, ◌∙◌, sym, false, List, [], ◌∷◌, ◌++◌, append_assoc, map, Text, lit,
  eq_text, text_eq, trim_end, trim_end-line, splitn, splitn-join, split_on, split_on-join, join,
  All, All-append, IsFree, IsLine, if◌then◌else◌, is_eol, ==_self, frame_of,
}
use inter_fire.Proto.{malformed}
use inter_fire.Proto.Client.{
  Result, ok, err, ◌>>=◌, collect, body_of, payload_of, rows_of, parse_list,
}

-- A line of words, with its end: a frame
pub frame_of-join : (words : List Text) → frame_of words ≡ join (32 ∷ []) words ++ (10 ∷ [])
unfolding join
frame_of-join [] = refl
frame_of-join (s ∷ []) = refl
frame_of-join (s ∷ t ∷ r) =
    ap (λ x. s ++ (32 ∷ x)) (frame_of-join (t ∷ r))
    ∙ sym (append_assoc s (32 ∷ join (32 ∷ []) (t ∷ r)) (10 ∷ []))

pub join-All :
    (P : ℕ → Type 0) (sep : ℕ) (rows : List Text)
    → P sep
    → All (All P) rows
    → All P (join (sep ∷ []) rows)
unfolding join
join-All P sep [] k h = tt
join-All P sep (s ∷ []) k h = h.0
join-All P sep (s ∷ t ∷ r) k h =
    All-append P s (sep ∷ join (sep ∷ []) (t ∷ r)) h.0 (k, join-All P sep (t ∷ r) k h.1)

pub append-ne-nil_left : (s t : Text) → s ≢ [] → s ++ t ≢ []
append-ne-nil_left [] t h = absurd (h refl)
append-ne-nil_left (c ∷ s) t h = λ e. cc

join-ne-nil : (sep : ℕ) (s : Text) (rows : List Text) → s ≢ [] → join (sep ∷ []) (s ∷ rows) ≢ []
unfolding join
join-ne-nil sep s [] h = h
join-ne-nil sep s (t ∷ r) h = append-ne-nil_left s (sep ∷ join (sep ∷ []) (t ∷ r)) h

-- Two parts make a text.
pub join_two-ne-nil : (sep : ℕ) (s t : Text) (r : List Text) → join (sep ∷ []) (s ∷ t ∷ r) ≢ []
unfolding join
join_two-ne-nil sep [] t r = λ e. cc
join_two-ne-nil sep (c ∷ s) t r = λ e. cc

pub All-map {ℓ κ μ ν} :
    {A : Type ℓ} {B : Type μ} (P : B → Type κ) (Q : A → Type ν) (f : A → B)
    → ((a : A) → Q a → P (f a))
    → (xs : List A) → All Q xs
    → All P (map f xs)
All-map P Q f g [] h = tt
All-map P Q f g (x ∷ xs) h = (g x h.0, All-map P Q f g xs h.1)

pub All-mono {ℓ κ μ} :
    {A : Type ℓ} (P : A → Type κ) (Q : A → Type μ)
    → ((a : A) → Q a → P a)
    → (xs : List A) → All Q xs
    → All P xs
All-mono P Q g [] h = tt
All-mono P Q g (x ∷ xs) h = (g x h.0, All-mono P Q g xs h.1)

-- The payload of a frame is what its rows are read from.
pub parse_list-payload {ℓ} :
    {A : Type ℓ} (sep : ℕ) (parse_row : Text → Result A) (label payload : Text)
    → IsFree b' ' label
    → IsLine label
    → IsLine payload
    → parse_list sep parse_row label (frame_of (lit "v1" ∷ label ∷ payload ∷ []))
      ≡ rows_of sep parse_row payload
unfolding parse_list text_eq
parse_list-payload sep parse_row label payload word line line' =
    let parts : List Text = lit "v1" ∷ label ∷ payload ∷ [] in
    let read = λ (body : List Text). rows_of sep parse_row (payload_of body) in
    ap (λ t. body_of label (splitn 3 32 (trim_end t)) >>= read) (frame_of-join parts)
    ∙ ap (λ t. body_of label (splitn 3 32 t) >>= read)
        (trim_end-line (join (32 ∷ []) parts) (
          join-All (λ c. is_eol c ≡ false) 32 parts refl ((refl, (refl, tt)), (line, (line', tt)))))
    ∙ ap (λ t. body_of label t >>= read)
        (splitn-join 32 parts ((refl, (refl, tt)), (word, tt)) (λ e. cc))
    ∙ ap (λ b. (if b then ok (payload ∷ []) else err malformed) >>= read) (==_self label)

pub rows_of-text {ℓ} :
    {A : Type ℓ} (sep : ℕ) (parse_row : Text → Result A) (s : Text)
    → s ≢ []
    → rows_of sep parse_row s ≡ collect parse_row (split_on sep s)
rows_of-text sep parse_row [] h = absurd (h refl)
rows_of-text sep parse_row (c ∷ s) h = refl

-- `view` is what a client sees of a row.
module _ {ℓ} {A B : Type ℓ} (sep : ℕ) (parse_row : Text → Result A) (encode_row : B → Text)
    (view : B → A) where
  collect-map :
      (rows : List B)
      → All (λ row. parse_row (encode_row row) ≡ ok (view row)) rows
      → collect parse_row (map encode_row rows) ≡ ok (map view rows)
  collect-map [] h = refl
  collect-map (row ∷ rows) h =
      ap (λ r. r >>= (λ x. collect parse_row (map encode_row rows) >>= (λ xs. ok (x ∷ xs)))) h.0
      ∙ ap (λ r. r >>= (λ xs. ok (view row ∷ xs))) (collect-map rows h.1)

  -- What a row needs: it is read back, and it is a text of one line without the separator.
  pub record IsRow (row : B) : Type ℓ where
    pub reads : parse_row (encode_row row) ≡ ok (view row)
    pub there : encode_row row ≢ []
    pub line : IsLine (encode_row row)
    pub free : IsFree sep (encode_row row)

  rows_of-join :
      (rows : List B)
      → All IsRow rows
      → rows_of sep parse_row (join (sep ∷ []) (map encode_row rows)) ≡ ok (map view rows)
  rows_of-join [] h = unfold join in refl
  rows_of-join (row ∷ rows) h =
      let texts = map encode_row (row ∷ rows) in
      rows_of-text sep parse_row (join (sep ∷ []) texts)
        (join-ne-nil sep (encode_row row) (map encode_row rows) h.0.there)
      ∙ ap (collect parse_row) (
          split_on-join sep texts
            (All-map (IsFree sep) IsRow encode_row (λ r v. v.free) (row ∷ rows) h) (λ e. cc))
      ∙ collect-map (row ∷ rows) (All-mono _ IsRow (λ r v. v.reads) (row ∷ rows) h)

  -- A list goes through its frame.
  pub parse_list-frame_of :
      (label : Text) (rows : List B)
      → IsFree b' ' label
      → IsLine label
      → is_eol sep ≡ false
      → All IsRow rows
      → parse_list sep parse_row label
          (frame_of (lit "v1" ∷ label ∷ join (sep ∷ []) (map encode_row rows) ∷ []))
        ≡ ok (map view rows)
  parse_list-frame_of label rows word line end h =
      parse_list-payload sep parse_row label (join (sep ∷ []) (map encode_row rows)) word line (
        join-All (λ c. is_eol c ≡ false) sep (map encode_row rows) end
          (All-map IsLine IsRow encode_row (λ r v. v.line) rows h))
      ∙ rows_of-join rows h

-- What is seen as it is
pub map_id {ℓ} : {A : Type ℓ} (xs : List A) → map (λ x. x) xs ≡ xs
map_id [] = refl
map_id (x ∷ xs) = ap (λ r. x ∷ r) (map_id xs)
