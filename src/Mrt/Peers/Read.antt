-- ===== src/Mrt/Peers/Read.antt =====
-- Peers of a peer index (src/mrt.c) that are read as they were written.
use isocore.Base.{
  ℕ, ◌+◌, ◌*◌, ◌^◌, ◌≤◌, ◌<◌, ◌≡◌, refl, sym, ap, ap₂, ◌∙◌, arith, Bool, true, false, if◌then◌else◌,
  List, [], ◌∷◌, ◌++◌, append_assoc, Option, none, some, length, drop, length-append,
}
use mathlib.Core.Path.{subst}
use isocore.Base.Bytes.{read_bytes, write_bytes, write_front, from_big}
use isocore.Base.Window.{read-window, window-head}
use isocore.NetAddr.{inet, inet6}
use isocore.Mrt.{PeerEntry}
use isocore.Mrt.Headers.Inverse.{
  encode_as, as_size, addr_size, family, length-encode_as, from_big-encode_as,
}
use isocore.Mrt.Peers.{pt_ipv6, pt_as32, decodepeerent}
use isocore.Mrt.Run.{Front, Front-advance}

-- A peer of the index, with the four or sixteen bytes of its address.
pub record Peer : Type 0 where
  pub v6 : Bool
  pub as32 : Bool
  pub id : List ℕ
  pub addr : List ℕ
  pub number : ℕ

pub record Fits (p : Peer) : Type 0 where
  pub id : length p.id ≡ 4
  pub addr : length p.addr ≡ addr_size p.v6
  pub number : p.number < 256 ^ as_size p.as32

abbrev type_byte : Bool → Bool → ℕ
type_byte v6 as32 = (if v6 then 1 else 0) + (if as32 then 2 else 0)

abbrev pub encode_peer : Peer → List ℕ
encode_peer p = type_byte p.v6 p.as32 ∷ (p.id ++ (p.addr ++ encode_as p.as32 p.number))

-- The entry for a peer, over an old one: the bytes after an IPv4 address are the old ones.
abbrev pub entry_over : PeerEntry → Peer → PeerEntry
entry_over old p = record {
  as_size = as_size p.as32;
  as_number = p.number;
  id = p.id;
  addr = record {
    family = family p.v6;
    bitlen = 8 * addr_size p.v6;
    bytes = p.addr ++ drop (length p.addr) old.addr.bytes;
  };
}

type_byte_v6 : (v6 as32 : Bool) → pt_ipv6 (type_byte v6 as32) ≡ v6
type_byte_v6 true true = refl
type_byte_v6 true false = refl
type_byte_v6 false true = refl
type_byte_v6 false false = refl

type_byte_as32 : (v6 as32 : Bool) → pt_as32 (type_byte v6 as32) ≡ as32
type_byte_as32 true true = refl
type_byte_as32 true false = refl
type_byte_as32 false true = refl
type_byte_as32 false false = refl

-- `decodepeerent` after the byte with the bits, by its reads.
module _ (buf : List ℕ) (dst : PeerEntry) (ptr : ℕ) (v6 as32 : Bool) where
  abbrev size : ℕ
  size = if v6 then 16 else 4

  abbrev after_number : List ℕ → List ℕ → Option (List ℕ) → Option (PeerEntry × ℕ)
  after_number id bytes o = elim o [
    | none ↦ none
    | some number ↦ some (
      record {
        as_size = if as32 then 4 else 2;
        as_number = from_big number 0;
        id = id;
        addr = record {
          family = if v6 then inet6 else inet;
          bitlen = if v6 then 128 else 32;
          bytes = bytes;
        };
      },
      ptr + 5 + size + (if as32 then 4 else 2),
    )
  ]

  abbrev after_write : List ℕ → Option (List ℕ) → Option (PeerEntry × ℕ)
  after_write id o = elim o [
    | none ↦ none
    | some bytes ↦ after_number id bytes (read_bytes buf (ptr + 5 + size) (if as32 then 4 else 2))
  ]

  abbrev after_addr : List ℕ → Option (List ℕ) → Option (PeerEntry × ℕ)
  after_addr id o = elim o [
    | none ↦ none
    | some sin ↦ after_write id (write_bytes dst.addr.bytes 0 sin)
  ]

  abbrev after_id : Option (List ℕ) → Option (PeerEntry × ℕ)
  after_id o = elim o [ none ↦ none | some id ↦ after_addr id (read_bytes buf (ptr + 5) size) ]

  abbrev decoded : Option (PeerEntry × ℕ)
  decoded = after_id (read_bytes buf (ptr + 1) 4)

pub read_front_of :
    {buf : List ℕ} {ptr end : ℕ} (xs ys : List ℕ) (n : ℕ)
    → length xs ≡ n
    → Front buf ptr end (xs ++ ys)
    → read_bytes buf ptr n ≡ some xs
read_front_of {buf = buf} {ptr = ptr} {end = end} xs ys n size f =
    ap (read_bytes buf ptr) (sym size) ∙ read-window buf ptr end xs ys f.in_buf f.order f.front

module _ (buf : List ℕ) (ptr end : ℕ) (old : PeerEntry) (room : length old.addr.bytes ≡ 16)
    (p : Peer) (fits : Fits p) (rest : List ℕ) (f : Front buf ptr end (encode_peer p ++ rest)) where
  length-encode_peer : length (encode_peer p) ≡ 5 + addr_size p.v6 + as_size p.as32
  length-encode_peer = omega (
    arith,
    fits.id,
    fits.addr,
    length-encode_as p.as32 p.number,
    length-append p.id (p.addr ++ encode_as p.as32 p.number),
    length-append p.addr (encode_as p.as32 p.number),
  )

  abbrev tail : List ℕ
  tail = encode_as p.as32 p.number ++ rest

  at_id : Front buf (ptr + 1) end (p.id ++ (p.addr ++ tail))
  at_id = Front-advance (type_byte p.v6 p.as32 ∷ []) (p.id ++ (p.addr ++ tail)) 1 refl (record {
    in_buf = f.in_buf;
    order = f.order;
    front =
        f.front
        ∙ ap (λ xs. type_byte p.v6 p.as32 ∷ xs)
            (append_assoc p.id (p.addr ++ encode_as p.as32 p.number) rest
              ∙ ap (λ xs. p.id ++ xs) (append_assoc p.addr (encode_as p.as32 p.number) rest));
  })

  at_addr : Front buf (ptr + 5) end (p.addr ++ tail)
  at_addr =
      subst (λ q. Front buf q end (p.addr ++ tail)) (omega arith)
        (Front-advance p.id (p.addr ++ tail) 4 fits.id at_id)

  at_number : Front buf (ptr + 5 + addr_size p.v6) end tail
  at_number = Front-advance p.addr tail (addr_size p.v6) fits.addr at_addr

  small_addr : addr_size p.v6 ≤ 16
  small_addr = ground arith

  number_same : (v6 : Bool) → (if v6 then 128 else 32) ≡ 8 * addr_size v6
  number_same true = refl
  number_same false = refl

  pub decodepeerent_lem :
      decodepeerent buf old ptr ≡ some (entry_over old p, ptr + length (encode_peer p))
  unfolding decodepeerent
  decodepeerent_lem =
      ap
        (λ o. elim o [
          | none ↦ none
          | some flags ↦ decoded buf old ptr (pt_ipv6 flags) (pt_as32 flags)
        ])
        (window-head buf ptr end _ _ f.front)
      ∙ (ap₂ (decoded buf old ptr) (type_byte_v6 p.v6 p.as32) (type_byte_as32 p.v6 p.as32)
          ∙ (ap (after_id buf old ptr p.v6 p.as32) (read_front_of p.id _ 4 fits.id at_id)
              ∙ (ap (after_addr buf old ptr p.v6 p.as32 p.id)
                    (read_front_of p.addr _ (addr_size p.v6) fits.addr at_addr)
                  ∙ (ap (after_write buf old ptr p.v6 p.as32 p.id) (
                        write_front old.addr.bytes p.addr
                          (omega (arith, fits.addr, room, small_addr)))
                      ∙ (ap (after_number buf old ptr p.v6 p.as32 p.id bytes) (
                            read_front_of (encode_as p.as32 p.number) rest (as_size p.as32)
                              (length-encode_as p.as32 p.number) at_number)
                          ∙ done)))))
    where
      bytes : List ℕ
      bytes = p.addr ++ drop (length p.addr) old.addr.bytes

      done :
          after_number buf old ptr p.v6 p.as32 p.id bytes (some (encode_as p.as32 p.number))
          ≡ some (entry_over old p, ptr + length (encode_peer p))
      done =
          ap (λ n. built n (if p.v6 then 128 else 32) after)
            (from_big-encode_as p.as32 p.number fits.number)
          ∙ (ap (λ b. built p.number b after) (number_same p.v6)
              ∙ ap (built p.number (8 * addr_size p.v6)) (omega (arith, length-encode_peer)))
        where
          after : ℕ
          after = ptr + 5 + addr_size p.v6 + as_size p.as32

          built : ℕ → ℕ → ℕ → Option (PeerEntry × ℕ)
          built n b q = some (
            record {
              as_size = as_size p.as32;
              as_number = n;
              id = p.id;
              addr = record { family = family p.v6; bitlen = b; bytes = bytes };
            },
            q,
          )
