-- ===== src/Consent/Transfers.antt =====
-- Who signs splits, withdrawals, merges and moves (program/src/instruction/).
use pinocchio_stake_program.Base.{
  ℕ, ◌≡◌, ◌⊎◌, true, List, [], ◌∷◌, Option, none, some, ok, Post, arith, at_end, ◌-◌, replicate,
  length,
}
use pinocchio_stake_program.Types.{
  Pubkey, Meta, staker_role, withdrawer_role, StakeStateV2, uninitialized, initialized, staked,
  rewards_pool, check, required_key, contains, default_pubkey, maximum_signers,
}
use pinocchio_stake_program.Runtime.{AccountInfo, Store, Runtime}
use pinocchio_stake_program.Helpers.{get_stake_state, collect_signers}
use pinocchio_stake_program.Helpers.Signers.{contains-++, contains-replicate}
use pinocchio_stake_program.Instruction.Split.{split_state, process_split, padded}
use pinocchio_stake_program.Instruction.Withdraw.{
  withdraw_from, process_withdraw, is_uninitialized, custodian_of, signer_keys,
}
use pinocchio_stake_program.Effects.{HasMeta}
use pinocchio_stake_program.Consent.{
  Signed, StakerSigned, WithdrawerSigned, OfMeta, collected-Signed, Signed-behind,
}

-- A split needs the staker, or that its key is the default.
abbrev pub SplitSigned : List AccountInfo → Meta → Type 0
SplitSigned accounts m = StakerSigned accounts m ⊎ (m.authorized.staker ≡ default_pubkey)

module _ (accounts : List AccountInfo) (signers : List Pubkey)
    (c : collect_signers accounts ≡ ok signers) where
  padded-Signed :
      (k : Pubkey) → contains (padded signers) k ≡ true → Signed accounts k ⊎ (k ≡ default_pubkey)
  unfolding padded
  padded-Signed k h =
      let apart =
        contains-++ signers (replicate (maximum_signers - length signers) default_pubkey) k in
      let rest = contains-replicate (maximum_signers - length signers) default_pubkey k in
      let kept = collected-Signed accounts signers k c in grind arith

  split_check-SplitSigned :
      (m : Meta) → check m.authorized (padded signers) staker_role ≡ ok tt → SplitSigned accounts m
  unfolding check required_key
  split_check-SplitSigned m h = grind (arith, padded-Signed)

  split_state-Signed :
      (rt : Runtime) (s : Store) (source destination : AccountInfo) (n epoch : ℕ)
      (state : StakeStateV2)
      → Post
          (λ s'. OfMeta (λ m. SplitSigned accounts m) state)
          (split_state rt s source destination n epoch (padded signers) state)
  unfolding split_state
  split_state-Signed rt s source destination n epoch (staked m k flags) =
      grind (arith, split_check-SplitSigned)
  split_state-Signed rt s source destination n epoch (initialized m) =
      grind (arith, split_check-SplitSigned)
  split_state-Signed rt s source destination n epoch uninitialized =
      at_end (λ s'. Unit) _ λ s' h. tt
  split_state-Signed rt s source destination n epoch rewards_pool = tt

withdraw_signer :
    (authority : AccountInfo) (rest : List AccountInfo) (custodian : Option Pubkey) (k : Pubkey)
    → authority.is_signer ≡ true
    → custodian_of rest ≡ ok custodian
    → contains (signer_keys authority.key custodian) k ≡ true
    → Signed (authority ∷ rest) k
unfolding custodian_of contains Signed
withdraw_signer authority [] none k a c h = ground arith
withdraw_signer authority [] (some custodian) k a c h = cc
withdraw_signer authority (b ∷ rest) none k a c h = ground arith
withdraw_signer authority (b ∷ rest) (some custodian) k a c h = ground arith

module _ (source destination clock_info history authority : AccountInfo)
    (rest : List AccountInfo) where
  abbrev withdraw_list : List AccountInfo
  withdraw_list = source ∷ destination ∷ clock_info ∷ history ∷ authority ∷ rest

  in_list : (k : Pubkey) → Signed (authority ∷ rest) k → Signed withdraw_list k
  in_list k h = Signed-behind source (destination ∷ clock_info ∷ history ∷ authority ∷ rest) k (
      Signed-behind destination (clock_info ∷ history ∷ authority ∷ rest) k (
        Signed-behind clock_info (history ∷ authority ∷ rest) k
          (Signed-behind history (authority ∷ rest) k h)))

  withdrawer_check :
      (m : Meta) (custodian : Option Pubkey)
      → authority.is_signer ≡ true
      → custodian_of rest ≡ ok custodian
      → check m.authorized (signer_keys authority.key custodian) withdrawer_role ≡ ok tt
      → WithdrawerSigned withdraw_list m
  unfolding check required_key
  withdrawer_check m custodian a c h =
      in_list m.authorized.withdrawer
        (withdraw_signer authority rest custodian m.authorized.withdrawer a c (ground arith))

module _ (rt : Runtime) (s : Store)
    (source destination clock_info history authority : AccountInfo) where
  withdraw_from-Signed :
      (rest : List AccountInfo) (n : ℕ) (m : Meta) (state : StakeStateV2)
      → get_stake_state s source ≡ ok state
      → HasMeta state m
      → Post
          (λ s'.
            WithdrawerSigned (withdraw_list source destination clock_info history authority rest) m)
          (withdraw_from rt s source destination clock_info authority rest n)
  unfolding withdraw_from
  withdraw_from-Signed [] n m (initialized m') r h =
      let w = withdrawer_check source destination clock_info history authority [] m none in
      grind arith
  withdraw_from-Signed (b ∷ rest) n m (initialized m') r h =
      let w =
        withdrawer_check source destination clock_info history authority (b ∷ rest) m
          (some b.key) in
      grind arith
  withdraw_from-Signed [] n m (staked m' k flags) r h =
      let w = withdrawer_check source destination clock_info history authority [] m none in
      grind arith
  withdraw_from-Signed (b ∷ rest) n m (staked m' k flags) r h =
      let w =
        withdrawer_check source destination clock_info history authority (b ∷ rest) m
          (some b.key) in
      grind arith
  withdraw_from-Signed rest n m uninitialized r h = absurd h
  withdraw_from-Signed rest n m rewards_pool r h = absurd h

  pub withdraw-Signed :
      (rest : List AccountInfo) (n : ℕ) (m : Meta) (state : StakeStateV2)
      → get_stake_state s source ≡ ok state
      → HasMeta state m
      → Post
          (λ s'.
            WithdrawerSigned (withdraw_list source destination clock_info history authority rest) m)
          (process_withdraw rt s
            (withdraw_list source destination clock_info history authority rest)
            n)
  unfolding process_withdraw is_uninitialized
  withdraw-Signed rest n m (initialized m') r h =
      let from = withdraw_from-Signed rest n m (initialized m') r h in grind arith
  withdraw-Signed rest n m (staked m' k flags) r h =
      let from = withdraw_from-Signed rest n m (staked m' k flags) r h in grind arith
  withdraw-Signed rest n m uninitialized r h = absurd h
  withdraw-Signed rest n m rewards_pool r h = absurd h

module _ (rt : Runtime) (s : Store) (source destination third : AccountInfo) where
  pub split-Signed :
      (n : ℕ) (state : StakeStateV2)
      → get_stake_state s source ≡ ok state
      → Post
          (λ s'. OfMeta (λ m. SplitSigned (source ∷ destination ∷ third ∷ []) m) state)
          (process_split rt s (source ∷ destination ∷ third ∷ []) n)
  unfolding process_split
  split-Signed n state r = grind (arith, split_state-Signed)
