-- ===== src/Structs/Sizes.antt =====
-- The sizes that the `repr(C)` layout gives the structs of program/src/state/: those that the codec
-- and the pointer casts count with.
use pinocchio_stake_program.Base.{ℕ, ◌+◌, ◌≡◌, refl, List, [], ◌∷◌, arith}
use pinocchio_stake_program.Codec.{account_size, meta_size, stake_size}
use pinocchio_stake_program.Casts.{authorized_size, lockup_size}
use pinocchio_stake_program.Structs.{
  Layout, place, align_of, total, repr_c, repr_c_packed, repr_c_enum, largest, authorized_layout,
  lockup_layout, meta_layout, stake_layout, state_layout, aligned,
}

-- Fields that may stand anywhere.
abbrev AnyPlace : List Layout → Type 0
AnyPlace [] = Unit
AnyPlace (field ∷ fields) = (field.align ≡ 1) × AnyPlace fields

place-total :
    (fields : List Layout) (offset : ℕ)
    → AnyPlace fields
    → place offset fields ≡ offset + total fields
unfolding place total
place-total [] offset h = omega arith
place-total (field ∷ fields) offset h =
    let rest = place-total fields (aligned offset field.align + field.size) h.1 in
    let one = h.0 in ground arith

align_of-one : (fields : List Layout) → AnyPlace fields → align_of fields ≡ 1
unfolding align_of
align_of-one [] h = refl
align_of-one (field ∷ fields) h =
    let rest = align_of-one fields h.1 in let one = h.0 in ground arith

-- A struct of such fields has no padding: it is laid out as a packed one.
pub repr_c-packed : (fields : List Layout) → AnyPlace fields → repr_c fields ≡ repr_c_packed fields
unfolding repr_c repr_c_packed
repr_c-packed fields h =
    let size = place-total fields 0 h in let one = align_of-one fields h in grind arith

-- The codec's sizes are those of the layout, tag and padding of the state included.
pub codec_sizes :
    (meta_size ≡ meta_layout.size)
    × (stake_size ≡ stake_layout.size)
    × (account_size ≡ state_layout.size)
unfolding repr_c_enum repr_c repr_c_packed place align_of largest total
codec_sizes = (refl, refl, refl)

pub cast_sizes : (authorized_size ≡ authorized_layout.size) × (lockup_size ≡ lockup_layout.size)
unfolding repr_c place align_of
cast_sizes = (refl, refl)
