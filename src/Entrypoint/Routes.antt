-- ===== src/Entrypoint/Routes.antt =====
-- Which payloads the dispatch of program/src/entrypoint.rs takes, and which it refuses.
use pinocchio_stake_program.Base.{
  ℕ, ◌≡◌, ◌≢◌, ◌≤◌, ◌⊎◌, List, ◌∷◌, ok, fail, Post, Post-of, Gives, arith, refl, ◌>>=◌, ◌↔◌, inl,
  inr, Option, some, none, length, invalid_instruction_data, incorrect_program_id,
}
use pinocchio_stake_program.Types.{Pubkey, id}
use pinocchio_stake_program.Runtime.{AccountInfo, Store, Runtime}
use pinocchio_stake_program.Entrypoint.{
  StakeInstruction, initialize, authorize, delegate_stake, split, withdraw, deactivate, set_lockup,
  merge, authorize_with_seed, initialize_checked, authorize_checked, authorize_checked_with_seed,
  set_lockup_checked, get_minimum_delegation, deactivate_delinquent, redelegate, move_stake,
  move_lamports, try_from, dispatch, process_instruction, gate, read_u64, run_initialize_payload,
  run_authorize_payload, run_checked_payload,
}
use pinocchio_stake_program.Structs.{
  initialize_data_size, authorize_data_size, split_data_size, withdraw_data_size, byte, word,
  repr_c, place, align_of,
}

-- The wire number of an instruction.
abbrev pub number : StakeInstruction → ℕ
number initialize = 0
number authorize = 1
number delegate_stake = 2
number split = 3
number withdraw = 4
number deactivate = 5
number set_lockup = 6
number merge = 7
number authorize_with_seed = 8
number initialize_checked = 9
number authorize_checked = 10
number authorize_checked_with_seed = 11
number set_lockup_checked = 12
number get_minimum_delegation = 13
number deactivate_delinquent = 14
number redelegate = 15
number move_stake = 16
number move_lamports = 17

-- Every instruction is what its number is read as.
pub try_from-number : (ix : StakeInstruction) → try_from (number ix) ≡ ok ix
unfolding try_from
try_from-number initialize = refl
try_from-number authorize = refl
try_from-number delegate_stake = refl
try_from-number split = refl
try_from-number withdraw = refl
try_from-number deactivate = refl
try_from-number set_lockup = refl
try_from-number merge = refl
try_from-number authorize_with_seed = refl
try_from-number initialize_checked = refl
try_from-number authorize_checked = refl
try_from-number authorize_checked_with_seed = refl
try_from-number set_lockup_checked = refl
try_from-number get_minimum_delegation = refl
try_from-number deactivate_delinquent = refl
try_from-number redelegate = refl
try_from-number move_stake = refl
try_from-number move_lamports = refl

number-try_from : (n : ℕ) → Post (λ ix. number ix ≡ n) (try_from n)
unfolding try_from
number-try_from n = ground arith

-- A number is read as the instruction that has it, and as no other.
pub try_from_iff : (n : ℕ) (ix : StakeInstruction) → (try_from n ≡ ok ix) ↔ (number ix ≡ n)
try_from_iff n ix = (
  λ h. Post-of (λ ix. number ix ≡ n) (try_from n) (number-try_from n) h,
  λ e. rw (← e) (try_from-number ix),
)

-- The sizes of the payloads that the dispatch compares with one size.
abbrev pub payload_size : StakeInstruction → Option ℕ
payload_size initialize = some initialize_data_size
payload_size authorize = some authorize_data_size
payload_size delegate_stake = none
payload_size split = some split_data_size
payload_size withdraw = some withdraw_data_size
payload_size deactivate = none
payload_size set_lockup = none
payload_size merge = none
payload_size authorize_with_seed = none
payload_size initialize_checked = none
payload_size authorize_checked = some byte.size
payload_size authorize_checked_with_seed = none
payload_size set_lockup_checked = none
payload_size get_minimum_delegation = none
payload_size deactivate_delinquent = none
payload_size redelegate = none
payload_size move_stake = some word.size
payload_size move_lamports = some word.size

-- No instruction has the number, or it is the redelegation's, or the payload has not the size
-- that the dispatch asks for.
pub data Malformed (disc : ℕ) (payload : List ℕ) : Type 0 where
  unknown : 18 ≤ disc → Malformed disc payload
  retired : disc ≡ 15 → Malformed disc payload
  missized :
      (ix : StakeInstruction) (n : ℕ)
      → number ix ≡ disc
      → payload_size ix ≡ some n
      → length payload ≢ n
      → Malformed disc payload

module _ (rt : Runtime) (s : Store) (program_id : Pubkey) (accounts : List AccountInfo) where
  missized-dispatch :
      (payload : List ℕ) (ix : StakeInstruction) (n : ℕ)
      → payload_size ix ≡ some n
      → length payload ≢ n
      → dispatch rt s accounts payload ix ≡ fail invalid_instruction_data
  unfolding dispatch gate read_u64 run_initialize_payload run_authorize_payload run_checked_payload
      repr_c place align_of
  missized-dispatch payload initialize n e ne = ground arith
  missized-dispatch payload authorize n e ne = ground arith
  missized-dispatch payload split n e ne = ground arith
  missized-dispatch payload withdraw n e ne = ground arith
  missized-dispatch payload authorize_checked n e ne = ground arith
  missized-dispatch payload move_stake n e ne = ground arith
  missized-dispatch payload move_lamports n e ne = ground arith
  missized-dispatch payload delegate_stake n e ne = cc
  missized-dispatch payload deactivate n e ne = cc
  missized-dispatch payload set_lockup n e ne = cc
  missized-dispatch payload merge n e ne = cc
  missized-dispatch payload authorize_with_seed n e ne = cc
  missized-dispatch payload initialize_checked n e ne = cc
  missized-dispatch payload authorize_checked_with_seed n e ne = cc
  missized-dispatch payload set_lockup_checked n e ne = cc
  missized-dispatch payload get_minimum_delegation n e ne = cc
  missized-dispatch payload deactivate_delinquent n e ne = cc
  missized-dispatch payload redelegate n e ne = cc

  outside :
      (payload : List ℕ) (n : ℕ)
      → (18 ≤ n) ⊎ (n ≡ 15)
      → (try_from n >>= dispatch rt s accounts payload) ≡ fail invalid_instruction_data
  unfolding try_from dispatch
  outside payload n h = ground arith

  refused :
      (payload : List ℕ) (disc : ℕ)
      → Malformed disc payload
      → (try_from disc >>= dispatch rt s accounts payload) ≡ fail invalid_instruction_data
  refused payload disc (unknown h) = outside payload disc (inl h)
  refused payload disc (retired h) = outside payload disc (inr h)
  refused payload disc (missized ix n is e ne) =
      rw (← is, try_from-number ix) (missized-dispatch payload ix n e ne)

  -- An instruction for another program, or with a number from 18 on, with the number 15 of the
  -- redelegation, or of one of the seven instructions whose payload has a fixed size (`Initialize`,
  -- `Authorize`, `Split`, `Withdraw`, `AuthorizeChecked`, `MoveStake` and `MoveLamports`) with a
  -- payload of another size, gives no new store, and the error is `IncorrectProgramId` exactly when it is for another
  -- program, and `InvalidInstructionData` else.
  pub process_instruction-refused :
      (disc : ℕ) (payload : List ℕ)
      → (program_id ≢ id) ⊎ Malformed disc payload
      → ((program_id ≢ id)
          × (process_instruction rt s program_id accounts (disc ∷ payload)
              ≡ fail incorrect_program_id))
        ⊎ ((program_id ≡ id)
            × (process_instruction rt s program_id accounts (disc ∷ payload)
                ≡ fail invalid_instruction_data))
  unfolding process_instruction
  process_instruction-refused disc payload (inl h) = ground arith
  process_instruction-refused disc payload (inr h) =
      let known = refused payload disc h in ground arith

  abbrev pub Routed : ℕ → List ℕ → Store → Type 0
  Routed disc payload s' =
      (program_id ≡ id)
      × Gives (try_from disc) λ ix. (number ix ≡ disc) × (dispatch rt s accounts payload ix ≡ ok s')

  Routed-Post :
      (disc : ℕ) (payload : List ℕ)
      → Post (Routed disc payload) (process_instruction rt s program_id accounts (disc ∷ payload))
  unfolding process_instruction
  Routed-Post disc payload = grind (arith, number-try_from disc)

  -- An instruction that succeeds is for this program, and the first byte is the number of the
  -- instruction whose arm gave the new store.
  pub process_instruction-Routed :
      (disc : ℕ) (payload : List ℕ) {s' : Store}
      → process_instruction rt s program_id accounts (disc ∷ payload) ≡ ok s'
      → Routed disc payload s'
  process_instruction-Routed disc payload h =
      Post-of (Routed disc payload) (process_instruction rt s program_id accounts (disc ∷ payload))
        (Routed-Post disc payload) h
