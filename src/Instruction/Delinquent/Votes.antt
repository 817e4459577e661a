-- ===== src/Instruction/Delinquent/Votes.antt =====
-- The delinquency tests on a vote account's credits (program/src/instruction/
-- deactivate_delinquent.rs), and what a deactivation for delinquency asks for.
use pinocchio_stake_program.Base.{
  ℕ, ◌+◌, ◌-◌, ◌≡◌, ◌≤◌, ◌<◌, inl, inr, zero, suc, true, Bool, Option, none, some, List, ◌∷◌, ok,
  Post, Post-of, Gives, arith, refl, length, Bool-cases, ◌==◌, ==→eq, ==→ne,
}
use pinocchio_stake_program.Types.{
  Pubkey, StakeStateV2, uninitialized, initialized, staked, rewards_pool, vote_program_id, u64_max,
  minimum_delinquent_epochs_for_deactivation,
}
use pinocchio_stake_program.Runtime.{AccountInfo, Store, Runtime}
use pinocchio_stake_program.Delegation.{deactivate}
use pinocchio_stake_program.Helpers.{get_stake_state, set_stake_state}
use pinocchio_stake_program.Instruction.Delinquent.{
  count_of, epoch_at, reference_rounds, acceptable_reference_epoch_credits_bytes,
  last_vote_epoch_bytes, eligible, deactivate_if_eligible, process_deactivate_delinquent,
}

module _ (bytes : List ℕ) (current_epoch count : ℕ) where
  -- The entries from the `i`-th last on, `rounds` of them, are of the epochs in a row.
  abbrev InRow : ℕ → ℕ → Type 0
  InRow i rounds =
      (j : ℕ) → i ≤ j → j < i + rounds → epoch_at bytes (count - 1 - j) ≡ ok (current_epoch - j)

  round_inverted :
      (i rounds : ℕ)
      → reference_rounds bytes current_epoch count i (suc rounds) ≡ ok true
      → (epoch_at bytes (count - 1 - i) ≡ ok (current_epoch - i))
        × (reference_rounds bytes current_epoch count (i + 1) rounds ≡ ok true)
  unfolding reference_rounds
  round_inverted i rounds h = ground arith

  reference_rounds-InRow :
      (i rounds : ℕ)
      → reference_rounds bytes current_epoch count i rounds ≡ ok true
      → InRow i rounds
  reference_rounds-InRow i zero h j low high = absurd (omega arith)
  reference_rounds-InRow i (suc rounds) h j low high =
      let (first, later) = round_inverted i rounds h in
      elim (Bool-cases (i == j)) [
        | inl e ↦ rw (← ==→eq i j e) first
        | inr ne ↦
            reference_rounds-InRow (i + 1) rounds later j (omega (arith, ==→ne i j ne, low))
              (omega arith)
      ]

  InRow-reference_rounds :
      (i rounds : ℕ)
      → InRow i rounds
      → reference_rounds bytes current_epoch count i rounds ≡ ok true
  unfolding reference_rounds
  InRow-reference_rounds i zero h = refl
  InRow-reference_rounds i (suc rounds) h =
      let first = h i (omega arith) (omega arith) in
      let later =
        InRow-reference_rounds (i + 1) rounds (λ j low high. h j (omega arith) (omega arith)) in
      ground arith

module _ (bytes : List ℕ) (current_epoch n : ℕ) where
  acceptable_parts :
      acceptable_reference_epoch_credits_bytes bytes current_epoch n ≡ ok true
      → (n ≤ count_of bytes) × (reference_rounds bytes current_epoch (count_of bytes) 0 n ≡ ok true)
  unfolding acceptable_reference_epoch_credits_bytes
  acceptable_parts h = grind arith

  -- A reference vote is accepted only if it has `n` entries, of which the j-th last is of the j-th
  -- epoch before the current one, for every j below `n`.
  pub acceptable_reference-row :
      acceptable_reference_epoch_credits_bytes bytes current_epoch n ≡ ok true
      → (j : ℕ) → j < n
      → (n ≤ count_of bytes) × (epoch_at bytes (count_of bytes - 1 - j) ≡ ok (current_epoch - j))
  acceptable_reference-row h j less =
      let (enough, rounds) = acceptable_parts h in
      (
        enough,
        reference_rounds-InRow bytes current_epoch (count_of bytes) 0 n rounds j (omega arith)
            (omega arith),
      )

  row-rounds :
      ((j : ℕ) → j < n → epoch_at bytes (count_of bytes - 1 - j) ≡ ok (current_epoch - j))
      → reference_rounds bytes current_epoch (count_of bytes) 0 n ≡ ok true
  row-rounds row =
      InRow-reference_rounds bytes current_epoch (count_of bytes) 0 n
        (λ j low high. row j (omega arith))

  -- A reference vote with a count of at least `n`, whose j-th last entry is of the j-th epoch before
  -- the current one for every j below `n`, is accepted.
  pub row-acceptable_reference :
      4 ≤ length bytes
      → n ≤ count_of bytes
      → ((j : ℕ) → j < n → epoch_at bytes (count_of bytes - 1 - j) ≡ ok (current_epoch - j))
      → acceptable_reference_epoch_credits_bytes bytes current_epoch n ≡ ok true
  unfolding acceptable_reference_epoch_credits_bytes
  row-acceptable_reference long enough row =
      let rounds = row-rounds row in grind (arith, long, enough, rounds)

-- The last vote, if there is one, was cast at least five epochs ago.
abbrev pub IsDelinquent : ℕ → Option ℕ → Type 0
IsDelinquent epoch none = Unit
IsDelinquent epoch (some last_epoch) =
    last_epoch + minimum_delinquent_epochs_for_deactivation ≤ epoch

eligible-IsDelinquent :
    (epoch : ℕ) (last : Option ℕ) → eligible epoch last ≡ true → IsDelinquent epoch last
unfolding eligible
eligible-IsDelinquent epoch none h = tt
eligible-IsDelinquent epoch (some last_epoch) h = ground arith

abbrev pub Deactivated : Store → AccountInfo → Pubkey → ℕ → StakeStateV2 → Store → Type 0
Deactivated s ai vote epoch (staked m k flags) s' =
    (k.delegation.voter_pubkey ≡ vote)
    × (k.delegation.deactivation_epoch ≡ u64_max)
    × (set_stake_state s ai (
          staked m (record k { delegation = record (k.delegation) { deactivation_epoch = epoch } })
            flags)
        ≡ ok s')
Deactivated s ai vote epoch (initialized m) s' = ⊥
Deactivated s ai vote epoch uninitialized s' = ⊥
Deactivated s ai vote epoch rewards_pool s' = ⊥

deactivate_if_eligible-Deactivated :
    (s : Store) (ai : AccountInfo) (vote epoch : ℕ) (is_eligible : Bool) (state : StakeStateV2)
    → Post
        (λ s'. (is_eligible ≡ true) × Deactivated s ai vote epoch state s')
        (deactivate_if_eligible s ai vote epoch is_eligible state)
unfolding deactivate_if_eligible deactivate
deactivate_if_eligible-Deactivated s ai vote epoch is_eligible (staked m k flags) = grind arith
deactivate_if_eligible-Deactivated s ai vote epoch is_eligible (initialized m) = tt
deactivate_if_eligible-Deactivated s ai vote epoch is_eligible uninitialized = tt
deactivate_if_eligible-Deactivated s ai vote epoch is_eligible rewards_pool = tt

module _ (rt : Runtime) (s : Store) (stake_account delinquent reference : AccountInfo) where
  module _ (rest : List AccountInfo) where
    abbrev pub DelinquentBy : Store → Type 0
    DelinquentBy s' =
        ((s reference.key).owner ≡ vote_program_id)
        × ((s delinquent.key).owner ≡ vote_program_id)
        × Gives rt.clock_get λ clock.
          (acceptable_reference_epoch_credits_bytes (s reference.key).bytes clock.epoch
              minimum_delinquent_epochs_for_deactivation
            ≡ ok true)
          × Gives (last_vote_epoch_bytes (s delinquent.key).bytes) λ last.
            IsDelinquent clock.epoch last
            × Gives (get_stake_state s stake_account)
                λ state. Deactivated s stake_account delinquent.key clock.epoch state s'

    delinquent-Post :
        Post DelinquentBy
          (process_deactivate_delinquent rt s (stake_account ∷ delinquent ∷ reference ∷ rest))
    unfolding process_deactivate_delinquent
    delinquent-Post = grind (arith, eligible-IsDelinquent, deactivate_if_eligible-Deactivated)

    -- A deactivation for delinquency that succeeds, which nobody has to sign, is of a stake without
    -- a deactivation whose voter is the delinquent vote account. That account has never voted or
    -- has not for five epochs, the reference account is accepted for the last five, and the vote
    -- program owns both; the clock's epoch becomes the deactivation epoch.
    pub deactivate_delinquent-DelinquentBy :
        {s' : Store}
        → process_deactivate_delinquent rt s (stake_account ∷ delinquent ∷ reference ∷ rest) ≡ ok s'
        → DelinquentBy s'
    deactivate_delinquent-DelinquentBy h =
        Post-of DelinquentBy
          (process_deactivate_delinquent rt s (stake_account ∷ delinquent ∷ reference ∷ rest))
          delinquent-Post h
