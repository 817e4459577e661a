-- ===== src/Base/Bytes.antt =====
-- Little-endian bytes of machine words, and reads from a byte slice.
use Prim.Native.Nat.{ℕ, zero, suc, ◌+◌, ◌*◌, ◌/◌, ◌%◌, ◌^◌, ◌<◌}
use mathlib.Core.Path.{◌≡◌, refl, ap}
use mathlib.Core.Bool.{Bool, true, false}
use mathlib.Core.List.{List, [], ◌∷◌, ◌++◌}
use native.Mathlib.Nat.{pow-suc}
use native.Mathlib.Omega.{arith}
use pinocchio_stake_program.Base.Tests.{ltb, ◌==◌, if◌then◌else◌}
use pinocchio_stake_program.Base.Lists.{length, take, drop, take-append, drop-append}

-- `to_le_bytes` of a word of `w` bytes.
unfoldable pub le_bytes : ℕ → ℕ → List ℕ
le_bytes zero n = []
le_bytes (suc w) n = n % 256 ∷ le_bytes w (n / 256)

-- `from_le_bytes`
unfoldable pub le_value : List ℕ → ℕ
le_value [] = 0
le_value (b ∷ bs) = b + 256 * le_value bs

-- The first `w` bytes of a slice as a word, and the slice after them.
unfoldable pub read_le : ℕ → List ℕ → ℕ × List ℕ
read_le w bs = (le_value (take w bs), drop w bs)

-- The order of byte arrays, `[u8; 8] < [u8; 8]`: the first byte that differs decides.
unfoldable pub lex_ltb : List ℕ → List ℕ → Bool
lex_ltb [] [] = false
lex_ltb [] (c ∷ cs) = true
lex_ltb (b ∷ bs) [] = false
lex_ltb (b ∷ bs) (c ∷ cs) = if b == c then lex_ltb bs cs else ltb b c

-- `&mut data[off..]` overwritten by `bs`.
unfoldable pub write_at : ℕ → List ℕ → List ℕ → List ℕ
write_at off bs bytes = take off bytes ++ (bs ++ drop (length bs) (drop off bytes))

pub length-le_bytes : (w n : ℕ) → length (le_bytes w n) ≡ w
unfolding le_bytes
length-le_bytes zero n = refl
length-le_bytes (suc w) n = omega (arith, length-le_bytes w (n / 256))

div-lt-pow : (w n : ℕ) → n < 256 ^ suc w → n / 256 < 256 ^ w
div-lt-pow w n h = omega (arith, pow-suc 256 w)

-- A word that fits its width is read back.
pub le_value-le_bytes : (w n : ℕ) → n < 256 ^ w → le_value (le_bytes w n) ≡ n
unfolding le_bytes le_value
le_value-le_bytes zero n h = omega arith
le_value-le_bytes (suc w) n h = omega (arith, le_value-le_bytes w (n / 256) (div-lt-pow w n h))

pub read_le-append :
    (w n : ℕ) → n < 256 ^ w → (rest : List ℕ) → read_le w (le_bytes w n ++ rest) ≡ (n, rest)
unfolding read_le
read_le-append w n h rest = rw (take-append w (le_bytes w n) rest (length-le_bytes w n)) (
    rw (drop-append w (le_bytes w n) rest (length-le_bytes w n))
      (ap (λ (v : ℕ). (v, rest)) (le_value-le_bytes w n h)))

pub write_at-append :
    (n : ℕ) (xs bs ys : List ℕ)
    → length xs ≡ n
    → write_at n bs (xs ++ ys) ≡ xs ++ (bs ++ drop (length bs) ys)
unfolding write_at
write_at-append n xs bs ys h = rw (take-append n xs ys h) (rw (drop-append n xs ys h) refl)
