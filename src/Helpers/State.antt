-- ===== src/Helpers/State.antt =====
-- `get_stake_state` and `set_stake_state` of program/src/helpers/utils.rs: what a write leaves.
use pinocchio_stake_program.Base.{ℕ, ◌≡◌, ◌≢◌, ◌≤◌, List, length, ok, arith, bind-parts, Gives}
use pinocchio_stake_program.Types.{StakeStateV2, Fits, id}
use pinocchio_stake_program.Codec.{deserialize, serialize, account_size}
use pinocchio_stake_program.Codec.RoundTrip.{deserialize_of_serialize, deserialize-serialize}
use pinocchio_stake_program.Runtime.{AccountInfo, Store}
use pinocchio_stake_program.Helpers.{get_stake_state, set_stake_state, set_bytes}

-- Two stores that differ in the bytes of one account at most.
pub record SameButBytes (s s' : Store) (k : ℕ) : Type 0 where
  pub lamports_kept : (j : ℕ) → (s' j).lamports ≡ (s j).lamports
  pub owner_kept : (j : ℕ) → (s' j).owner ≡ (s j).owner
  pub others_kept : (j : ℕ) → j ≢ k → s' j ≡ s j

set_bytes-bytes : (s : Store) (k : ℕ) (bytes : List ℕ) → (set_bytes s k bytes k).bytes ≡ bytes
set_bytes-bytes s k bytes = ground arith

set_bytes-same : (s : Store) (k : ℕ) (bytes : List ℕ) → SameButBytes s (set_bytes s k bytes) k
set_bytes-same s k bytes = record {
  lamports_kept = λ j. ground arith;
  owner_kept = λ j. ground arith;
  others_kept = λ j h. ground arith;
}

module _ (s : Store) (ai : AccountInfo) (state : StakeStateV2) {s' : Store} where
  -- A write changes the bytes of its account and nothing else.
  pub set_stake_state-same : set_stake_state s ai state ≡ ok s' → SameButBytes s s' ai.key
  unfolding set_stake_state
  set_stake_state-same h =
      let (bytes, stored, e) =
        bind-parts (serialize state (s ai.key).bytes) (λ b. ok (set_bytes s ai.key b)) h in
      let written : set_bytes s ai.key bytes ≡ s' = cc in
      rw (← written) (set_bytes-same s ai.key bytes)

  -- The bytes are those that `serialize` made of the old ones.
  pub set_stake_state-serialize :
      set_stake_state s ai state ≡ ok s' → serialize state (s ai.key).bytes ≡ ok (s' ai.key).bytes
  unfolding set_stake_state
  set_stake_state-serialize h =
      let (bytes, stored, e) =
        bind-parts (serialize state (s ai.key).bytes) (λ b. ok (set_bytes s ai.key b)) h in
      let written : set_bytes s ai.key bytes ≡ s' = cc in
      rw (← written) (rw (set_bytes-bytes s ai.key bytes) stored)

  -- The state that was written is what the account's bytes hold.
  pub deserialize-set_stake_state :
      Fits state → set_stake_state s ai state ≡ ok s' → deserialize (s' ai.key).bytes ≡ ok state
  unfolding set_stake_state
  deserialize-set_stake_state f h =
      let (bytes, stored, e) =
        bind-parts (serialize state (s ai.key).bytes) (λ b. ok (set_bytes s ai.key b)) h in
      let written : set_bytes s ai.key bytes ≡ s' = cc in
      rw (← written) (
        rw (set_bytes-bytes s ai.key bytes)
          (deserialize_of_serialize state (s ai.key).bytes f stored))

-- What is read is what the bytes of an account of the program hold.
pub get_stake_state-deserialize :
    (s : Store) (ai : AccountInfo) (state : StakeStateV2)
    → get_stake_state s ai ≡ ok state
    → ((s ai.key).owner ≡ id) × (deserialize (s ai.key).bytes ≡ ok state)
unfolding get_stake_state
get_stake_state-deserialize s ai state h = ground arith

-- And what such an account's bytes hold is read.
pub get_stake_state-held :
    (s : Store) (ai : AccountInfo) (state : StakeStateV2)
    → (s ai.key).owner ≡ id
    → deserialize (s ai.key).bytes ≡ ok state
    → get_stake_state s ai ≡ ok state
unfolding get_stake_state
get_stake_state-held s ai state o d = ground arith

-- A state whose words fit can always be written into an account of at least 208 bytes.
pub set_stake_state-Gives :
    (s : Store) (ai : AccountInfo) (state : StakeStateV2)
    → Fits state
    → account_size ≤ length (s ai.key).bytes
    → Gives
        (set_stake_state s ai state)
        λ s'. SameButBytes s s' ai.key × (deserialize (s' ai.key).bytes ≡ ok state)
unfolding set_stake_state
set_stake_state-Gives s ai state f sized =
    let (out, stored, read) = deserialize-serialize state (s ai.key).bytes f sized in
    rw stored (set_bytes-same s ai.key out, rw (set_bytes-bytes s ai.key out) read)
