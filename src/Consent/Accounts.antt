-- ===== src/Consent/Accounts.antt =====
-- What an instruction of program/src/entrypoint.rs may do to a stake account without the signature
-- that it needs of the account's authorities: nothing that the account would lose by.
use pinocchio_stake_program.Base.{
  ℕ, ◌≡◌, ◌≤◌, ◌⊎◌, inl, inr, true, false, Bool-cases, ◌==◌, ==→eq, ==→ne, List, [], ◌∷◌, take, ok,
  Post, Post-of, Gives, Gives-then, Gives-of, arith, zero, suc, refl,
}
use pinocchio_stake_program.Types.{Pubkey, Meta, StakeStateV2, id}
use pinocchio_stake_program.Codec.{deserialize}
use pinocchio_stake_program.Runtime.{AccountInfo, Store, Runtime}
use pinocchio_stake_program.Helpers.{get_stake_state}
use pinocchio_stake_program.Helpers.State.{get_stake_state-held}
use pinocchio_stake_program.Helpers.Lamports.{relocate_lamports-IsRelocated}
use pinocchio_stake_program.Foreign.{kept_or_grown}
use pinocchio_stake_program.Instruction.Split.{process_split}
use pinocchio_stake_program.Instruction.MergeAccounts.{process_merge}
use pinocchio_stake_program.Instruction.Move.{process_move_stake}
use pinocchio_stake_program.Effects.{HasMeta, Effect, unpaid, paid, listed}
use pinocchio_stake_program.Effects.Accounts.{Writes-Frame, unlisted_ne}
use pinocchio_stake_program.Effects.Dispatch.{acting, actors, process_instruction-Acts}
use pinocchio_stake_program.Consent.{Consented, StakerSigned}
use pinocchio_stake_program.Consent.Seconds.{
  split_refused, merge-second-Signed, move_stake-second-Signed,
}
use pinocchio_stake_program.Consent.Exempt.{Exempt, dispatch-Exempt}
use pinocchio_stake_program.Consent.Dispatch.{process_instruction-Consented}
use pinocchio_stake_program.Entrypoint.{
  StakeInstruction, initialize, authorize, delegate_stake, split, withdraw, deactivate, set_lockup,
  merge, authorize_with_seed, initialize_checked, authorize_checked, authorize_checked_with_seed,
  set_lockup_checked, get_minimum_delegation, deactivate_delinquent, redelegate, move_stake,
  move_lamports, dispatch, process_instruction, gate, try_from,
}
use pinocchio_stake_program.Entrypoint.Routes.{number, process_instruction-Routed}

-- An account keeps its bytes, and has no fewer lamports.
abbrev pub Untouched : Store → Store → Pubkey → Type 0
Untouched s s' j = ((s' j).bytes ≡ (s j).bytes) × ((s j).lamports ≤ (s' j).lamports)

-- What an instruction leaves of an account with the metadata `m`: all that it had; or the account is
-- an actor, and the signature is there, or, in the two instructions that need none, its lamports are.
abbrev pub Secured : List AccountInfo → StakeInstruction → Store → Store → Pubkey → Meta → Type 0
Secured accounts ix s s' j m =
    Untouched s s' j
    ⊎ ((listed (actors ix accounts) j ≡ true) × Consented accounts ix m × Exempt ix s s' j)

-- All but the actors of an effect are untouched.
Effect-Untouched :
    (actors receivers : List AccountInfo) (s : Store) (j : Pubkey) {s' : Store}
    → Effect actors receivers s s'
    → listed actors j ≡ false
    → Untouched s s' j
Effect-Untouched actors receivers s j (unpaid w) f =
    let same = Writes-Frame actors s w j f in rw same (refl, omega arith)
Effect-Untouched actors receivers s j (paid {s1} {s2} source destination n old w l l' r e) f =
    let same = Writes-Frame actors s w j f in
    let gone = relocate_lamports-IsRelocated s1 source destination n e in
    let grown = kept_or_grown s1 source destination n s2 gone j (unlisted_ne actors source j l f) in
    rw (← same) (gone.bytes_kept j, grown)

module _ (rt : Runtime) (s : Store) (a b : AccountInfo) (m : Meta) (state : StakeStateV2)
    (r : get_stake_state s b ≡ ok state) (h : HasMeta state m) where
  split-Consented :
      (rest : List AccountInfo) (n : ℕ) → Post (λ s'. ⊥) (process_split rt s (a ∷ b ∷ rest) n)
  unfolding process_split
  split-Consented [] n = grind arith
  split-Consented (c ∷ []) n = split_refused rt s a b c n m state r h
  split-Consented (c ∷ d ∷ rest) n = grind arith

  merge-Consented :
      (rest : List AccountInfo)
      → Post (λ s'. StakerSigned (a ∷ b ∷ rest) m) (process_merge rt s (a ∷ b ∷ rest))
  unfolding process_merge
  merge-Consented [] = tt
  merge-Consented (c ∷ []) = tt
  merge-Consented (c ∷ d ∷ rest) = merge-second-Signed rt s a b c d rest m state r h

  move_stake-Consented :
      (rest : List AccountInfo) (n : ℕ)
      → Post (λ s'. StakerSigned (a ∷ b ∷ rest) m) (process_move_stake rt s (a ∷ b ∷ rest) n)
  unfolding process_move_stake
  move_stake-Consented [] n = tt
  move_stake-Consented (c ∷ rest) n = move_stake-second-Signed rt s a b c m state r h rest n

  -- The second of two actors.
  second-Consented :
      (rest : List AccountInfo) (payload : List ℕ) (ix : StakeInstruction)
      → acting ix ≡ 2
      → Post (λ s'. Consented (a ∷ b ∷ rest) ix m) (dispatch rt s (a ∷ b ∷ rest) payload ix)
  unfolding dispatch gate
  second-Consented rest payload split two = let each = split-Consented rest in grind arith
  second-Consented rest payload merge two = merge-Consented rest
  second-Consented rest payload move_stake two = let each = move_stake-Consented rest in grind arith
  second-Consented rest payload initialize two = absurd (omega (arith, two))
  second-Consented rest payload authorize two = absurd (omega (arith, two))
  second-Consented rest payload delegate_stake two = absurd (omega (arith, two))
  second-Consented rest payload withdraw two = absurd (omega (arith, two))
  second-Consented rest payload deactivate two = absurd (omega (arith, two))
  second-Consented rest payload set_lockup two = absurd (omega (arith, two))
  second-Consented rest payload authorize_with_seed two = absurd (omega (arith, two))
  second-Consented rest payload initialize_checked two = absurd (omega (arith, two))
  second-Consented rest payload authorize_checked two = absurd (omega (arith, two))
  second-Consented rest payload authorize_checked_with_seed two = absurd (omega (arith, two))
  second-Consented rest payload set_lockup_checked two = absurd (omega (arith, two))
  second-Consented rest payload get_minimum_delegation two = absurd (omega (arith, two))
  second-Consented rest payload deactivate_delinquent two = absurd (omega (arith, two))
  second-Consented rest payload redelegate two = absurd (omega (arith, two))
  second-Consented rest payload move_lamports two = absurd (omega (arith, two))

reads :
    (s : Store) (a : AccountInfo) (j : Pubkey) (state : StakeStateV2)
    → j ≡ a.key
    → (s j).owner ≡ id
    → deserialize (s j).bytes ≡ ok state
    → get_stake_state s a ≡ ok state
reads s a j state e o d = get_stake_state-held s a state (rw (← e) o) (rw (← e) d)

-- The account with an actor's key is the first or the second, and then there are two.
data IsActor (n : ℕ) (j : Pubkey) : List AccountInfo → Type 0 where
  first : (a : AccountInfo) (rest : List AccountInfo) → j ≡ a.key → IsActor n j (a ∷ rest)
  second :
      (a b : AccountInfo) (rest : List AccountInfo) → n ≡ 2 → j ≡ b.key → IsActor n j (a ∷ b ∷ rest)

listed-IsActor :
    (n : ℕ) (accounts : List AccountInfo) (j : Pubkey)
    → n ≤ 2
    → listed (take n accounts) j ≡ true
    → IsActor n j accounts
unfolding listed
listed-IsActor zero accounts j le l = absurd (grind arith)
listed-IsActor (suc zero) [] j le l = absurd (grind arith)
listed-IsActor (suc zero) (a ∷ rest) j le l = first a rest (grind arith)
listed-IsActor (suc (suc zero)) [] j le l = absurd (grind arith)
listed-IsActor (suc (suc zero)) (a ∷ []) j le l = first a [] (grind arith)
listed-IsActor (suc (suc zero)) (a ∷ b ∷ rest) j le l = elim (Bool-cases (j == a.key)) [
  | inl here ↦ first a (b ∷ rest) (==→eq j a.key here)
  | inr other ↦ second a b rest refl (let ne = ==→ne j a.key other in ground arith)
]
listed-IsActor (suc (suc (suc n))) accounts j le l = absurd (omega (arith, le))

acting_bound : (ix : StakeInstruction) → acting ix ≤ 2
acting_bound ix = ground arith

module _ (rt : Runtime) (s : Store) (program_id : Pubkey) (disc : ℕ) (payload : List ℕ) (j : Pubkey)
    (m : Meta) (state : StakeStateV2) (own : (s j).owner ≡ id)
    (read : deserialize (s j).bytes ≡ ok state) (h : HasMeta state m) where
  -- An actor's authorities signed.
  actor-Consented :
      (accounts : List AccountInfo) (ix : StakeInstruction) {s' : Store}
      → process_instruction rt s program_id accounts (disc ∷ payload) ≡ ok s'
      → try_from disc ≡ ok ix
      → IsActor (acting ix) j accounts
      → Consented accounts ix m
  actor-Consented accounts ix done e (first a rest is_first) =
      Gives-of (try_from disc) (λ ix. Consented (a ∷ rest) ix m)
        (process_instruction-Consented rt s a rest m state (reads s a j state is_first own read) h
          program_id disc payload done)
        e
  actor-Consented accounts ix {s'} done e (second a b rest two is_second) =
      let run =
        Gives-of (try_from disc)
          (λ ix. (number ix ≡ disc) × (dispatch rt s (a ∷ b ∷ rest) payload ix ≡ ok s'))
          (process_instruction-Routed rt s program_id (a ∷ b ∷ rest) disc payload done).1 e in
      Post-of (λ s'. Consented (a ∷ b ∷ rest) ix m) (dispatch rt s (a ∷ b ∷ rest) payload ix)
        (second-Consented rt s a b m state (reads s b j state is_second own read) h rest payload ix
          two)
        run.1

  actor-Exempt :
      (accounts : List AccountInfo) (ix : StakeInstruction) {s' : Store}
      → process_instruction rt s program_id accounts (disc ∷ payload) ≡ ok s'
      → try_from disc ≡ ok ix
      → Exempt ix s s' j
  actor-Exempt accounts ix {s'} done e =
      let run =
        Gives-of (try_from disc)
          (λ ix. (number ix ≡ disc) × (dispatch rt s accounts payload ix ≡ ok s'))
          (process_instruction-Routed rt s program_id accounts disc payload done).1 e in
      Post-of (λ s'. Exempt ix s s' j) (dispatch rt s accounts payload ix)
        (dispatch-Exempt rt s accounts payload j ix) run.1

  -- An instruction that succeeds leaves an account of the program that has metadata its bytes and
  -- at least its lamports, or carries the signature that the instruction needs of those metadata.
  -- Two instructions need none: the checked change of an authority with a seed, and the deactivation
  -- of a delinquent stake; they leave the account exactly its lamports. A split needs none of an
  -- account whose staker is the default key. For all others the signature is of an authority of the
  -- account's own.
  pub process_instruction-Secure :
      (accounts : List AccountInfo) {s' : Store}
      → process_instruction rt s program_id accounts (disc ∷ payload) ≡ ok s'
      → Gives (try_from disc) (λ ix. Secured accounts ix s s' j m)
  process_instruction-Secure accounts {s'} done =
      Gives-then (try_from disc) (λ ix. Effect (actors ix accounts) accounts s s')
        (λ ix. Secured accounts ix s s' j m)
        (process_instruction-Acts rt s program_id accounts disc payload done)
        λ ix e acts. elim (Bool-cases (listed (actors ix accounts) j)) [
          | inl acting_here ↦ inr (
            acting_here,
            actor-Consented accounts ix done e
                (listed-IsActor (acting ix) accounts j (acting_bound ix) acting_here),
            actor-Exempt accounts ix done e,
          )
          | inr elsewhere ↦ inl (Effect-Untouched (actors ix accounts) accounts s j acts elsewhere)
        ]
