-- ===== src/NetAddr/Tests.antt =====
-- Runs of the comparisons on addresses.
use isocore.Base.{◌≡◌, ◌↔◌, refl, inl, arith, Bool, true, false, ◌∷◌, some, take, set, replicate}
use isocore.NetAddr.{NetAddr, inet, u16_at, u32_at, mask_byte, patcompwithmask, prefixeqwithmask}
use isocore.NetAddr.Bits.{bits}
use isocore.NetAddr.Compare.{IsAddr, patcompwithmask_lem}
use isocore.NetAddr.Checked.{checked-IsBytes}
use isocore.NetAddr.Unrolled.{prefixeqwithmask_lem, prefixeqwithmask-skips_byte}
use isocore.NetAddr.Reserved.{isnaddrreserved, reserved_block, isnaddrreserved_lem}

-- 192.0.2.1 and 192.0.3.1
abbrev here : NetAddr
here = record { family = inet; bitlen = 32; bytes = 192 ∷ 0 ∷ 2 ∷ 1 ∷ replicate 12 0 }

abbrev there : NetAddr
there = record { family = inet; bitlen = 32; bytes = 192 ∷ 0 ∷ 3 ∷ 1 ∷ replicate 12 0 }

here-IsAddr : IsAddr here
here-IsAddr = record { sixteen = refl; octets = checked-IsBytes here.bytes refl }

there-IsAddr : IsAddr there
there-IsAddr = record { sixteen = refl; octets = checked-IsBytes there.bytes refl }

-- The two agree on 23 bits, and not on 24.
agree : prefixeqwithmask here there 23 ≡ some true
unfolding prefixeqwithmask u32_at u16_at mask_byte
agree = refl

differ : prefixeqwithmask here there 24 ≡ some false
unfolding prefixeqwithmask u32_at u16_at mask_byte
differ = refl

patcompwithmask_lem_example :
    (patcompwithmask here there 23 ≡ true)
    ↔ (take 23 (bits here.bytes) ≡ take 23 (bits there.bytes))
patcompwithmask_lem_example =
    patcompwithmask_lem here there 23 here-IsAddr there-IsAddr (omega arith)

prefixeqwithmask_lem_example :
    (r : Bool) × (prefixeqwithmask here there 23 ≡ some r)
    × ((r ≡ true) ↔ (take 23 (bits here.bytes) ≡ take 23 (bits there.bytes)))
prefixeqwithmask_lem_example =
    prefixeqwithmask_lem here there 23 here-IsAddr there-IsAddr (omega arith) (inl (omega arith))

prefixeqwithmask-skips_byte_example :
    prefixeqwithmask here (record here { bytes = set here.bytes 6 7 }) 56
    ≡ prefixeqwithmask here here 56
prefixeqwithmask-skips_byte_example =
    prefixeqwithmask-skips_byte here here 56 7 (omega arith) (omega arith)

isnaddrreserved_lem_example : isnaddrreserved here ≡ reserved_block here
isnaddrreserved_lem_example = isnaddrreserved_lem here here-IsAddr (λ e. absurd (omega (arith, e)))
