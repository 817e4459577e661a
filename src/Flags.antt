-- ===== src/Flags.antt =====
-- program/src/state/stake_flag.rs: the flags of a stake as a byte.
use Prim.Native.Nat.{bit_and, bit_or}
use pinocchio_stake_program.Base.{ℕ, zero, suc, ◌-◌, ◌<◌, ◌≡◌, refl, Bool, true, ◌&&◌, ◌==◌, arith}
use pinocchio_stake_program.Types.{StakeFlags}

abbrev pub must_fully_activate_before_deactivation_is_permitted : StakeFlags
must_fully_activate_before_deactivation_is_permitted = record { bits = 1 }

unfoldable pub includes : StakeFlags → StakeFlags → Bool
includes flags other = bit_and flags.bits other.bits == other.bits

-- `bits &= !other.bits`, on a `u8`.
unfoldable pub remove : StakeFlags → StakeFlags → StakeFlags
remove flags other = record { bits = bit_and flags.bits (255 - other.bits) }

-- `bits |= other.bits`
unfoldable pub set : StakeFlags → StakeFlags → StakeFlags
set flags other = record { bits = bit_or flags.bits other.bits }

-- A test that the numbers up to a bound pass, one after the other.
passes : (ℕ → Bool) → ℕ → Bool
passes test zero = true
passes test (suc k) = passes test k && test k

passed : (test : ℕ → Bool) (k m : ℕ) → m < k → passes test k ≡ true → test m ≡ true
unfolding passes
passed test zero m below whole = absurd (omega arith)
passed test (suc k) m below whole = ground (arith, passed test k m)

-- What the three operations promise, of two bytes.
abbrev promised : ℕ → ℕ → Bool
promised a b =
    (bit_and (bit_or a b) b == b)
    && (bit_and (bit_or a b) a == a)
    && (bit_and (bit_and a (255 - b)) b == 0)
    && (bit_or (bit_and a (255 - b)) (bit_and a b) == a)

table : passes (λ a. passes (λ b. promised a b) 256) 256 ≡ true
unfolding passes
table = refl

byte_pair : (a b : ℕ) → a < 256 → b < 256 → promised a b ≡ true
byte_pair a b ha hb =
    passed (λ c. promised a c) 256 b hb
      (passed (λ c. passes (λ d. promised c d) 256) 256 a ha table)

-- Setting flags includes them and those that were set; removing them leaves none of them, and the
-- rest as they were.
pub set-remove :
    (flags other : StakeFlags)
    → flags.bits < 256
    → other.bits < 256
    → (includes (set flags other) other ≡ true)
      × (includes (set flags other) flags ≡ true)
      × (bit_and (remove flags other).bits other.bits ≡ 0)
      × (bit_or (remove flags other).bits (bit_and flags.bits other.bits) ≡ flags.bits)
unfolding includes set remove
set-remove flags other hf ho = let pair = byte_pair flags.bits other.bits hf ho in ground arith
