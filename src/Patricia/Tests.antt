-- ===== src/Patricia/Tests.antt =====
-- Runs of the operations of the trie.
use isocore.Base.{
  ℕ, zero, suc, ◌/◌, ◌%◌, ◌^◌, ◌≡◌, refl, arith, true, false, [], ◌∷◌, none, some, replicate,
  if◌then◌else◌, ◌==◌,
}
use isocore.NetAddr.{
  NetAddr, inet, unspec, u32_at, patcompwithmask, memcmp_eq, masked_byte_eq, mask_byte,
}
use isocore.NetAddr.Compare.{IsAddr}
use isocore.NetAddr.Checked.{checked-IsBytes}
use isocore.Patricia.{nil, node, plain, glue, Trie, bit_of}
use isocore.Patricia.Search.{
  patissubnetofn, entry, patsearchexactn, patsearchbestn, patgetsupernetsofn,
}
use isocore.Patricia.Shape.{entries, IsPatricia, find_prefix}
use isocore.Patricia.Lookup.{IsQuery, patsearchexactn_lem}
use isocore.Patricia.Walk.{patcoverage, patgetfirstsubnetsofn, room_for}
use isocore.Patricia.Walk.Iterate.{visit_all, visit_all_lem}
use isocore.Patricia.Walk.Cover.{addresses, firsts, patcoverage_lem}
use isocore.Patricia.Walk.Firsts.{top_of}
use isocore.Patricia.Walk.Within.{first_subnets, patgetfirstsubnetsofn-first_subnets}
use isocore.Patricia.Subnets.{patgetsubnetsofn}
use isocore.Patricia.Subnets.Branch.{is_chain, patgetsubnetsofn_lem}
use isocore.Patricia.Remove.{Place, locate}
use isocore.Patricia.Remove.Gap.{Leaves, patremoven_lem}
use isocore.Patricia.Remove.Valid.{patremoven-IsPatricia}
use isocore.Patricia.Remove.Locate.{erase}
use isocore.Patricia.Remove.After.{patsearchexactn-patremoven}
use isocore.Patricia.Above.{filter_by}
use isocore.Patricia.Above.Supernets.{covers, patgetsupernetsofn_lem}
use isocore.Patricia.Above.Subnet.{is_empty, patissubnetofn_lem}
use isocore.Base.{not}
use isocore.Patricia.Above.Best.{is_above, last_of, patsearchbestn_lem}
use isocore.Patricia.Pages.{getfreenode, take_node, taken}
use isocore.Patricia.Insert.{
  Inserted, patinsertn, differ_bit_of, differ_loop, frombig32, insert_from, descend, ascend,
  insert_at, insert_new, join, glue_prefix,
}
use isocore.Patricia.Hidden.{patinsertn-hides}

-- 10.0.0.0/8, 10.1.0.0/16 and 10.128.0.0/16
abbrev net8 : NetAddr
net8 = record { family = inet; bitlen = 8; bytes = 10 ∷ replicate 15 0 }

abbrev low16 : NetAddr
low16 = record { family = inet; bitlen = 16; bytes = 10 ∷ 1 ∷ replicate 14 0 }

abbrev high16 : NetAddr
high16 = record { family = inet; bitlen = 16; bytes = 10 ∷ 128 ∷ replicate 14 0 }

net8-IsAddr : IsAddr net8
net8-IsAddr = record { sixteen = refl; octets = checked-IsBytes net8.bytes refl }

low16-IsAddr : IsAddr low16
low16-IsAddr = record { sixteen = refl; octets = checked-IsBytes low16.bytes refl }

high16-IsAddr : IsAddr high16
high16-IsAddr = record { sixteen = refl; octets = checked-IsBytes high16.bytes refl }

net8-IsQuery : IsQuery net8
net8-IsQuery = record { address = net8-IsAddr; fits = omega arith }

low16-IsQuery : IsQuery low16
low16-IsQuery = record { address = low16-IsAddr; fits = omega arith }

-- The three of them in a trie, with two free nodes.
abbrev three : Trie
three = record {
  head = node plain net8 1 (node plain low16 2 nil nil) (node plain high16 3 nil nil);
  maxbitlen = 32;
  nprefs = 3;
  pages = 1;
  free = false ∷ false ∷ [];
}

low16-leaf : IsPatricia (node plain low16 2 nil nil)
low16-leaf = (
  (
    _,
    record {
      in_tree = refl;
      fits = omega arith;
      address = λ e. low16-IsAddr;
      own = λ e. refl;
      left = tt;
      right = tt;
      under_left = tt;
      under_right = tt;
      branches = λ e. cc;
    },
  ),
  tt,
  tt,
)

high16-leaf : IsPatricia (node plain high16 3 nil nil)
high16-leaf = (
  (
    _,
    record {
      in_tree = refl;
      fits = omega arith;
      address = λ e. high16-IsAddr;
      own = λ e. refl;
      left = tt;
      right = tt;
      under_left = tt;
      under_right = tt;
      branches = λ e. cc;
    },
  ),
  tt,
  tt,
)

three-IsPatricia : IsPatricia three.head
unfolding bit_of
three-IsPatricia = (
  (
    _,
    record {
      in_tree = refl;
      fits = omega arith;
      address = λ e. net8-IsAddr;
      own = λ e. refl;
      left = ((omega arith, λ e. refl), tt, tt);
      right = ((omega arith, λ e. refl), tt, tt);
      under_left = ((λ e. refl), tt, tt);
      under_right = ((λ e. refl), tt, tt);
      branches = λ e. cc;
    },
  ),
  low16-leaf,
  high16-leaf,
)

three-holds : entries three.head ≡ entry net8 1 ∷ entry low16 2 ∷ entry high16 3 ∷ []
three-holds = refl

-- What `__builtin_clz` returns for a word that is not 0, counted from the high bit.
abbrev leading_zeros : ℕ → ℕ → ℕ
leading_zeros zero x = 0
leading_zeros (suc k) x = let rest = leading_zeros k x in if x / 2 ^ k == 0 then suc rest else 0

abbrev clz32 : ℕ → ℕ
clz32 x = leading_zeros 32 x

-- 10.1.0.0/16 alone, with two free nodes.
abbrev one : Trie
one = record {
  head = node plain low16 2 nil nil;
  maxbitlen = 32;
  nprefs = 1;
  pages = 1;
  free = false ∷ false ∷ [];
}

abbrev one_free : Trie
one_free = record {
  head = node plain low16 2 nil nil;
  maxbitlen = 32;
  nprefs = 1;
  pages = 1;
  free = false ∷ [];
}

abbrev none_free : Trie
none_free = record {
  head = node plain low16 2 nil nil;
  maxbitlen = 32;
  nprefs = 1;
  pages = 1;
  free = [];
}

differs_after_8 : differ_bit_of clz32 net8 low16 ≡ some 8
unfolding differ_bit_of differ_loop frombig32 u32_at
differs_after_8 = refl

takes_one : getfreenode true one ≡ taken one_free
unfolding getfreenode take_node
takes_one = refl

takes_two : getfreenode true one_free ≡ taken none_free
unfolding getfreenode take_node
takes_two = refl

patsearchexactn_lem_example :
    patsearchexactn three low16 ≡ some (find_prefix low16 (entries three.head))
patsearchexactn_lem_example = patsearchexactn_lem three low16 three-IsPatricia low16-IsQuery

patsearchbestn_lem_example :
    patsearchbestn three low16
    ≡ some (last_of none (filter_by (is_above low16) (entries three.head)))
patsearchbestn_lem_example = patsearchbestn_lem three low16 three-IsPatricia low16-IsQuery

patgetsupernetsofn_lem_example :
    patgetsupernetsofn true three low16
    ≡ some (some (filter_by (covers low16) (entries three.head)))
patgetsupernetsofn_lem_example =
    patgetsupernetsofn_lem three low16 three-IsPatricia refl low16-IsQuery (omega arith)

visit_all_lem_example : visit_all 9 three ≡ some (entries three.head)
visit_all_lem_example = visit_all_lem three 9 three-IsPatricia (omega arith)

patcoverage_lem_example : patcoverage 9 three ≡ some (addresses 32 (firsts three.head) % 2 ^ 128)
patcoverage_lem_example =
    patcoverage_lem three 9 three-IsPatricia
      (omega arith, (omega arith, tt, tt), (omega arith, tt, tt)) (omega arith)

room_below_8 : room_for three net8 ≡ some 3
unfolding room_for
room_below_8 = refl

agree_with_8 :
    (patcompwithmask net8 net8 8 ≡ true)
    × (patcompwithmask low16 net8 8 ≡ true)
    × (patcompwithmask high16 net8 8 ≡ true)
unfolding patcompwithmask memcmp_eq masked_byte_eq mask_byte
agree_with_8 = (refl, refl, refl)

first_subnets_of_8 : first_subnets net8 three.head ≡ entry net8 1 ∷ []
unfolding patcompwithmask memcmp_eq masked_byte_eq mask_byte
first_subnets_of_8 = refl

patgetfirstsubnetsofn-first_subnets_example :
    patgetfirstsubnetsofn 9 true three net8 ≡ some (some (first_subnets net8 three.head))
unfolding patcompwithmask memcmp_eq masked_byte_eq mask_byte
patgetfirstsubnetsofn-first_subnets_example =
    patgetfirstsubnetsofn-first_subnets three net8 9 3 three-IsPatricia net8-IsQuery
      (omega arith, (omega arith, tt, tt), (omega arith, tt, tt)) refl (omega arith) room_below_8
      (λ e. cc) (omega arith)

patgetsubnetsofn_lem_example : patgetsubnetsofn 9 true three net8 ≡ (
    if is_chain (top_of net8 three.head)
    then some (some (entries (top_of net8 three.head)))
    else none)
patgetsubnetsofn_lem_example =
    patgetsubnetsofn_lem three net8 9 3 three-IsPatricia refl
      ((λ e. agree_with_8.0), ((λ e. agree_with_8.1), tt, tt), ((λ e. agree_with_8.2), tt, tt))
      (omega arith) room_below_8 (omega arith)

patremoven_lem_example : Leaves three low16
patremoven_lem_example = patremoven_lem three low16 three-IsPatricia low16-IsQuery

abbrev low_place : Place
low_place = record {
  kind = plain;
  prefix = low16;
  payload = 2;
  left = nil;
  right = nil;
  way =
      record {
        kind = plain;
        prefix = net8;
        payload = 1;
        side = false;
        other = node plain high16 3 nil nil;
      }
      ∷ [];
}

locates_low : locate three.head low16 [] ≡ some (some low_place)
unfolding locate bit_of patcompwithmask memcmp_eq masked_byte_eq mask_byte
locates_low = refl

patremoven-IsPatricia_example : IsPatricia patremoven_lem_example.result.trie.head
patremoven-IsPatricia_example =
    patremoven-IsPatricia three low16 low_place patremoven_lem_example.result three-IsPatricia
      low16-IsQuery locates_low refl patremoven_lem_example.returned

-- What the insertion of 10.0.0.0/8 leaves.
abbrev hidden : Inserted
hidden = record {
  trie = record {
    head =
        node glue (record { family = unspec; bitlen = 8; bytes = replicate 16 0 }) 0
          (node plain net8 0 nil nil) (node plain low16 2 nil nil);
    maxbitlen = 32;
    nprefs = 2;
    pages = 1;
    free = [];
  };
  returned = some (entry net8 0);
  inserted = true;
}

inserts_8 : patinsertn clz32 true one net8 ≡ some hidden
unfolding patinsertn insert_from descend differ_bit_of differ_loop frombig32 u32_at ascend insert_at
    insert_new getfreenode take_node join glue_prefix bit_of
inserts_8 = refl

same_side : bit_of low16 8 ≡ bit_of net8 8
unfolding bit_of
same_side = refl

patinsertn-hides_example : patsearchexactn hidden.trie low16 ≡ some none
patinsertn-hides_example =
    patinsertn-hides clz32 true one one_free none_free net8 low16 low16 2 nil nil refl (omega arith)
      (omega arith) differs_after_8 takes_one takes_two (omega arith) same_side hidden inserts_8

patissubnetofn_lem_example :
    patissubnetofn three low16
    ≡ some (not (is_empty (filter_by (covers low16) (entries three.head))))
patissubnetofn_lem_example =
    patissubnetofn_lem three low16 three-IsPatricia low16-IsQuery (omega arith)

patsearchexactn-patremoven_example :
    patsearchexactn patremoven_lem_example.result.trie net8
    ≡ some (find_prefix net8 (erase low16 (entries three.head)))
patsearchexactn-patremoven_example =
    patsearchexactn-patremoven three low16 net8 low_place patremoven_lem_example.result
      three-IsPatricia low16-IsQuery net8-IsQuery locates_low refl patremoven_lem_example.returned
