-- ===== src/Merge/Credits.antt =====
-- `stake_weighted_credits_observed` and `merge_delegation_stake_and_credits_observed` of
-- program/src/helpers/merge.rs: the average that they compute.
use pinocchio_stake_program.Base.{
  ℕ, ◌+◌, ◌-◌, ◌*◌, ◌/◌, ◌≤◌, ◌<◌, ◌≡◌, inl, inr, ap, some, ok, arith, suc, Option-cases,
}
use native.Mathlib.Nat.{
  div-mul-le_self, lt-div-mul-add, le_of_mul-le-mul_right, lt_of_mul-lt-mul_right,
}
use pinocchio_stake_program.Types.{Stake, Delegation, u64_mod}
use pinocchio_stake_program.Merge.{
  stake_weighted_credits_observed, merge_delegation_stake_and_credits_observed, set_stake_amount,
}

-- `r` is the average of `c` and `a`, with the weights `s` and `l`, rounded up.
abbrev pub IsCeilAverage : ℕ → ℕ → ℕ → ℕ → ℕ → Type 0
IsCeilAverage c s a l r = (c * s + a * l ≤ r * (s + l)) × (r * (s + l) < c * s + a * l + (s + l))

ceil_div : (w t : ℕ) → 0 < t → (w ≤ (w + t - 1) / t * t) × ((w + t - 1) / t * t < w + t)
ceil_div w t h =
    omega (arith, div-mul-le_self (w + t - 1) t, lt-div-mul-add {a = w + t - 1} {b = t} h)

average_same : (c s l : ℕ) → 0 < s + l → IsCeilAverage c s c l c
average_same c s l h = grind arith

-- The credits that are answered for two stakes that are not both empty are the average of theirs,
-- weighted by the amounts and rounded up.
pub stake_weighted_credits_observed-IsCeilAverage :
    (k : Stake) (lamports credits : ℕ) {r : ℕ}
    → 0 < k.delegation.stake + lamports
    → stake_weighted_credits_observed k lamports credits ≡ some r
    → IsCeilAverage k.credits_observed k.delegation.stake credits lamports r
unfolding stake_weighted_credits_observed
stake_weighted_credits_observed-IsCeilAverage k lamports credits {r} pos h =
    let s = k.delegation.stake in
    let w = k.credits_observed * s + credits * lamports in
    ground (arith, average_same k.credits_observed s lamports, ceil_div w (s + lamports))

average_ge : (c s a l lo : ℕ) → lo ≤ c → lo ≤ a → lo * (s + l) ≤ c * s + a * l
average_ge c s a l lo hc ha = grind arith

average_le : (c s a l hi : ℕ) → c ≤ hi → a ≤ hi → c * s + a * l ≤ hi * (s + l)
average_le c s a l hi hc ha = grind arith

-- An average lies between any bounds of what it averages.
pub IsCeilAverage-between :
    (c s a l r lo hi : ℕ)
    → 0 < s + l
    → IsCeilAverage c s a l r
    → lo ≤ c
    → lo ≤ a
    → c ≤ hi
    → a ≤ hi
    → (lo ≤ r) × (r ≤ hi)
IsCeilAverage-between c s a l r lo hi pos h lc la ch ah =
    let above : r * (s + l) < suc hi * (s + l) = omega (arith, average_le c s a l hi ch ah, h.1) in
    let r-lt : r < suc hi = lt_of_mul-lt-mul_right (s + l) above in
    let below : lo * (s + l) ≤ r * (s + l) = omega (arith, average_ge c s a l lo lc la, h.0) in
    (le_of_mul-le-mul_right below pos, omega arith)

-- What a merge leaves: the amounts added, nothing else of the delegation touched, and the credits
-- averaged with the amount that was written as the weight of the stake.
pub merge_delegation-parts :
    (k : Stake) (lamports credits : ℕ) {k' : Stake}
    → 0 < lamports
    → merge_delegation_stake_and_credits_observed k lamports credits ≡ ok k'
    → (k'.delegation ≡ (set_stake_amount k (k.delegation.stake + lamports)).delegation)
      × (k.delegation.stake + lamports < u64_mod)
      × IsCeilAverage k.credits_observed
          (k.delegation.stake + lamports)
          credits
          lamports
          k'.credits_observed
unfolding merge_delegation_stake_and_credits_observed
merge_delegation-parts k lamports credits {k'} pos h =
    let grown = set_stake_amount k (k.delegation.stake + lamports) in
    let found = Option-cases (stake_weighted_credits_observed grown lamports credits) in
    elim found [
      | inl e ↦ ground arith
      | inr (r, e) ↦
          let average =
            stake_weighted_credits_observed-IsCeilAverage grown lamports credits (omega arith) e in
          ground arith
    ]

-- A merge adds the lamports to the stake and leaves the rest of the delegation.
pub merge_delegation-delegation :
    (k : Stake) (lamports credits : ℕ) {k' : Stake}
    → merge_delegation_stake_and_credits_observed k lamports credits ≡ ok k'
    → (k'.delegation ≡ (set_stake_amount k (k.delegation.stake + lamports)).delegation)
      × (k.delegation.stake + lamports < u64_mod)
unfolding merge_delegation_stake_and_credits_observed
merge_delegation-delegation k lamports credits {k'} h =
    let grown = set_stake_amount k (k.delegation.stake + lamports) in
    elim (Option-cases (stake_weighted_credits_observed grown lamports credits)) [
      | inl e ↦ ground arith
      | inr (r, e) ↦ ground arith
    ]

-- A merge of some lamports that succeeds adds them to the stake exactly, within 64 bits, and leaves
-- credits within any bounds that both credits are within.
pub merge_delegation-bounds :
    (k : Stake) (lamports credits lo hi : ℕ) {k' : Stake}
    → 0 < lamports
    → merge_delegation_stake_and_credits_observed k lamports credits ≡ ok k'
    → lo ≤ k.credits_observed
    → lo ≤ credits
    → k.credits_observed ≤ hi
    → credits ≤ hi
    → (k'.delegation.stake ≡ k.delegation.stake + lamports)
      × (k'.delegation.stake < u64_mod)
      × (lo ≤ k'.credits_observed)
      × (k'.credits_observed ≤ hi)
merge_delegation-bounds k lamports credits lo hi {k'} pos h lc la ch ah =
    let (d, fits, average) = merge_delegation-parts k lamports credits pos h in
    let e : k'.delegation.stake ≡ k.delegation.stake + lamports = ap Delegation.stake d in
    let (above, below) =
      IsCeilAverage-between k.credits_observed (k.delegation.stake + lamports) credits lamports
        k'.credits_observed lo hi (omega arith) average lc la ch ah in
    (e, omega arith, above, below)

third : (n s r : ℕ) → 0 < s → IsCeilAverage 0 (s + s) (3 * n) s r → r ≡ n
third n s r pos h =
    let up : n * (3 * s) ≤ r * (3 * s) = omega (arith, h.0) in
    let down : r * (3 * s) < suc n * (3 * s) = omega (arith, h.1) in
    let low : n ≤ r = le_of_mul-le-mul_right up (omega arith) in
    let high : r < suc n = lt_of_mul-lt-mul_right (3 * s) down in omega arith

pos_mul : (n s : ℕ) → 0 < n → 0 < s → 0 < n * s
pos_mul n s h k = grind arith

-- Merging a stake that has no credits with one of the same amount and 3n credits leaves n credits,
-- which is less than the average of the two: the stake that was merged is counted in both weights.
pub merge_credits_too_low :
    (k : Stake) (n : ℕ) {k' : Stake}
    → k.credits_observed ≡ 0
    → 0 < k.delegation.stake
    → 0 < n
    → merge_delegation_stake_and_credits_observed k k.delegation.stake (3 * n) ≡ ok k'
    → (k'.credits_observed ≡ n)
      × ¬ (
          IsCeilAverage k.credits_observed k.delegation.stake
            (3 * n)
            k.delegation.stake
            k'.credits_observed)
merge_credits_too_low k n {k'} none_seen pos npos h =
    let (d, fits, average) = merge_delegation-parts k k.delegation.stake (3 * n) pos h in
    let s = k.delegation.stake in
    let same : IsCeilAverage 0 (s + s) (3 * n) s k'.credits_observed = rw none_seen at average in
    let e : k'.credits_observed ≡ n = third n s k'.credits_observed pos same in
    (e, λ (low, high). absurd (omega (arith, pos_mul n s npos pos, ap (λ (t : ℕ). t * (s + s)) e)))
