-- ===== src/Prelude/Words.antt =====
-- Machine words as bytes, in both orders; a byte is a number below 256.
use Prim.Native.Nat.{ℕ, zero, suc, ◌+◌, ◌*◌, ◌/◌, ◌%◌, ◌^◌, ◌<◌}
use mathlib.Core.Path.{◌≡◌, refl, ap, ◌∙◌}
use mathlib.Core.List.{List, [], ◌∷◌, reverse}
use native.Mathlib.Omega.{arith}
use inter_fire.Prelude.Lists.{length, All}

-- `to_le_bytes`
abbrev pub le_bytes : ℕ → ℕ → List ℕ
le_bytes zero n = []
le_bytes (suc w) n = n % 256 ∷ le_bytes w (n / 256)

-- `from_le_bytes`
abbrev pub from_le : List ℕ → ℕ
from_le [] = 0
from_le (b ∷ bs) = b + 256 * from_le bs

-- `from_be_bytes`
abbrev pub from_be : List ℕ → ℕ
from_be bs = from_le (reverse bs)

-- `u16::from_be` and `u32::from_be` of a little-endian machine: the bytes in the other order.
abbrev pub swap_bytes : ℕ → ℕ → ℕ
swap_bytes w n = from_be (le_bytes w n)

pub from_le-le_bytes : (w n : ℕ) → n < 256 ^ w → from_le (le_bytes w n) ≡ n
from_le-le_bytes zero n h = omega (arith, h)
from_le-le_bytes (suc w) n h = omega (arith, from_le-le_bytes w (n / 256) (omega (arith, h)))

pub le_bytes-from_le :
    (bs : List ℕ) → All (λ b. b < 256) bs → le_bytes (length bs) (from_le bs) ≡ bs
le_bytes-from_le [] h = refl
le_bytes-from_le (b ∷ bs) h =
    let low : (b + 256 * from_le bs) % 256 ≡ b = omega (arith, h.0) in
    let high : (b + 256 * from_le bs) / 256 ≡ from_le bs = omega (arith, h.0) in
    λ i. low i ∷ (ap (le_bytes (length bs)) high ∙ le_bytes-from_le bs h.1) i
