-- ===== src/NetAddr/Checked.antt =====
-- A test for the bytes of an address.
use isocore.Base.{ℕ, ◌≡◌, refl, Bool, true, false, List, [], ◌∷◌, ltb, ltb→lt, ◌&&◌}
use isocore.NetAddr.Bits.{IsBytes}

abbrev pub all_octets : List ℕ → Bool
all_octets [] = true
all_octets (x ∷ xs) = ltb x 256 && all_octets xs

pub &&_split : (a b : Bool) → (a && b) ≡ true → (a ≡ true) × (b ≡ true)
&&_split true true h = (refl, refl)
&&_split true false h = cc
&&_split false b h = cc

pub checked-IsBytes : (xs : List ℕ) → all_octets xs ≡ true → IsBytes xs
checked-IsBytes [] h = tt
checked-IsBytes (x ∷ xs) h =
    let (first, more) = &&_split (ltb x 256) (all_octets xs) h in
    (ltb→lt x 256 first, checked-IsBytes xs more)
