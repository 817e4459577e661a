-- ===== src/Examples.antt =====
-- Concrete accounts, with which the theorems are tried: epoch 10, no lockup, and a stake of 50.
mod Handlers
mod Authorities
mod Stakes
mod Parts
mod Ledgers
mod Readers
mod Endings
use pinocchio_stake_program.Base.{
  ℕ, Bool, true, false, Option, none, some, List, [], ◌∷◌, Result, ok, err, custom, replicate, ◌==◌,
  if◌then◌else◌, ◌/◌, ◌*◌,
}
use pinocchio_stake_program.Base.Int.{pos}
use pinocchio_stake_program.Types.{
  Pubkey, Authorized, Lockup, Meta, Delegation, Stake, StakeStateV2, uninitialized, initialized,
  staked, Clock, id, vote_program_id, u64_max, default_lockup, empty_flags, SetLockupData,
}
use pinocchio_stake_program.Codec.{serialize}
use pinocchio_stake_program.Runtime.{AccountInfo, Account, Store, Rent, F64, Runtime}

abbrev pub clock : Clock
clock = record { epoch = 10; unix_timestamp = pos 5 }

abbrev pub rent : Rent
rent = record { minimum_balance = λ _. 3 }

-- Integer arithmetic in place of doubles.
abbrev pub integers : F64
integers = record { of_u64 = λ n. n; div = λ a b. a / b; mul = λ a b. a * b; as_u64 = λ n. n }

-- The clock's key is 7, and no stake history is stored.
abbrev pub rt : Runtime
rt = record {
  clock_id = 7;
  clock_get = ok clock;
  clock_from_account_info = λ _ _. ok clock;
  clock_from_account_info_unchecked = λ _ _. ok clock;
  rent_get = ok rent;
  rent_from_account_info = λ _ _. ok rent;
  sol_get_sysvar = λ _ _ _. (1, []);
  error_of = λ e. custom e;
  f64 = integers;
  set_lockup_layout = λ _. ok (record { unix_timestamp = none; epoch = some 20; custodian = none });
}

abbrev pub authorities : Authorized
authorities = record { staker = 11; withdrawer = 12 }

abbrev pub metadata : Meta
metadata = record { rent_exempt_reserve = 3; authorized = authorities; lockup = default_lockup }

-- 50 lamports delegated to the vote account 13 at the epoch 1.
abbrev pub stake_50 : Stake
stake_50 = record {
  delegation = record {
    voter_pubkey = 13;
    stake = 50;
    activation_epoch = 1;
    deactivation_epoch = u64_max;
    warmup_cooldown_rate = 0;
  };
  credits_observed = 4;
}

abbrev pub bytes_of : Result (List ℕ) → List ℕ
bytes_of (ok bytes) = bytes
bytes_of (err e) = []

abbrev pub stored : StakeStateV2 → List ℕ
unfolding serialize
stored state = bytes_of (serialize state (replicate 208 0))

abbrev pub account : StakeStateV2 → ℕ → Account
account state lamports = record { owner = id; lamports = lamports; bytes = stored state }

abbrev pub other : Account
other = record { owner = 1; lamports = 0; bytes = [] }

-- 1 and 2 are delegated, 3 is initialized, 4 is uninitialized, 13 is the vote account.
abbrev pub store : Store
store k =
    if k == 1
    then account (staked metadata stake_50 empty_flags) 60
    else if k == 2
    then account (staked metadata stake_50 empty_flags) 70
    else if k == 3
    then account (initialized metadata) 40
    else if k == 4
    then account uninitialized 5
    else if k == 13
    then record { owner = vote_program_id; lamports = 1; bytes = [] }
    else other

abbrev pub signer : Pubkey → AccountInfo
signer k = record { key = k; is_signer = true; is_writable = true }

abbrev pub plain : Pubkey → AccountInfo
plain k = record { key = k; is_signer = false; is_writable = true }

-- The store of a run that succeeds.
abbrev pub after : Result Store → Store
after (ok s) = s
after (err e) = store

abbrev pub or_else {ℓ} : {A : Type ℓ} → A → Result A → A
or_else a (ok b) = b
or_else a (err e) = a
