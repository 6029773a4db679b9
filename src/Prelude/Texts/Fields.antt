-- ===== src/Prelude/Texts/Fields.antt =====
-- Words joined by blanks are split into the words again.
use mathlib.Core.Path.{◌≡◌, refl, ap, ◌∙◌, sym}
use mathlib.Core.Logic.{◌≢◌}
use mathlib.Core.Bool.{Bool, true, false}
use mathlib.Core.List.{List, [], ◌∷◌, ◌++◌, reverse, reverse_aux, reverse-reverse}
use inter_fire.Prelude.Lists.{All}
use inter_fire.Prelude.Texts.{Text, is_whitespace, flush, fields_from, split_whitespace}

-- A word: some characters, none of them white space
abbrev pub IsWord : Text → Type 0
IsWord s = (s ≢ []) × All (λ c. is_whitespace c ≡ false) s

pub fields-word :
    (cur s rest : Text)
    → All (λ c. is_whitespace c ≡ false) s
    → fields_from cur (s ++ rest) ≡ fields_from (reverse_aux s cur) rest
unfolding fields_from
fields-word cur [] rest h = refl
fields-word cur (c ∷ s) rest h =
    ap (step (fields_from (c ∷ cur) (s ++ rest)) (flush cur (fields_from [] (s ++ rest)))) h.0
    ∙ fields-word (c ∷ cur) s rest h.1
  where
    step : List Text → List Text → Bool → List Text
    step on off b = elim b [ true ↦ off | false ↦ on ]

pub flush-word : (s : Text) (fields : List Text) → s ≢ [] → flush (reverse s) fields ≡ s ∷ fields
flush-word s fields ne = go (reverse s) refl
  where
    go : (r : Text) → reverse s ≡ r → flush r fields ≡ s ∷ fields
    go [] e = absurd (ne (sym (reverse-reverse s) ∙ ap reverse e))
    go (c ∷ r) e = ap (λ x. x ∷ fields) (ap reverse (sym e) ∙ reverse-reverse s)

-- A frame: the words with a blank between them, and the end of the line
abbrev pub frame_of : List Text → Text
frame_of [] = 10 ∷ []
frame_of (s ∷ []) = s ++ (10 ∷ [])
frame_of (s ∷ t ∷ r) = s ++ (32 ∷ frame_of (t ∷ r))

pub split_whitespace-frame_of :
    (ws : List Text) → All IsWord ws → split_whitespace (frame_of ws) ≡ ws
unfolding split_whitespace fields_from
split_whitespace-frame_of [] h = refl
split_whitespace-frame_of (s ∷ []) h = fields-word [] s (10 ∷ []) h.0.1 ∙ flush-word s [] h.0.0
split_whitespace-frame_of (s ∷ t ∷ r) h =
    fields-word [] s (32 ∷ frame_of (t ∷ r)) h.0.1
    ∙ flush-word s (fields_from [] (frame_of (t ∷ r))) h.0.0
    ∙ ap (λ x. s ∷ x) (split_whitespace-frame_of (t ∷ r) h.1)
