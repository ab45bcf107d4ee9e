-- ===== src/Bgp.antt =====
-- src/bgp.c, include/isolario/bgp.h: a BGP message that is read or written in place
-- (`bgp_msg_t`), its error latch and its flags. The children model the operations on it.
--
-- Pointers into the packet are offsets into `buf`, NULL is offset 0 (no field starts there).
-- An operation is a function from a message to an option: `none` is an access outside of the
-- packet's buffer, of a buffer left behind, or through an uninitialised value. The members of the union are fields
-- of their own. The thread-local versions of the operations only pass `&curmsg`.
pub mod Fields
pub mod Pending
pub mod Packet
pub mod Open
pub mod Attribs
pub mod Start
pub mod MpAttr
pub mod Prefixes
pub mod Put
pub mod Data
pub mod Latch
pub mod Grow
pub mod Iterate
pub mod Overrun
pub mod Communities
pub mod NextHop
pub mod AsPaths
pub mod Getters
pub mod Inverse
mod Tests
use isocore.Base.{
  ◌≡◌, refl, sym, arith, ℕ, ◌+◌, Bool, true, false, ◌&&◌, ◌==◌, if◌then◌else◌, List, [], ◌∷◌,
  Option, none, some, get_elem?, replicate,
}
use mathlib.Core.Path.{subst}
use isocore.NetAddr.{NetAddr, NetAddrAp, Family}

-- `BGP_ENOERR` and the error codes that follow it.
pub data Err : Type 0 where
  enoerr eio einvop enomem ebadhdr ebadtype ebadparamlen ebadwdrwn ebadattr ebadnlri : Err

abbrev pub is_ok : Err → Bool
is_ok enoerr = true
is_ok _ = false

-- The bits of `msg->flags`.
pub record Flags : Type 0 where
  pub sh : Bool
  pub rd : Bool
  pub wr : Bool
  pub pm : Bool
  pub withdrn : Bool
  pub allwithdrn : Bool
  pub pattr : Bool
  pub nlri : Bool
  pub allnlri : Bool
  pub aspath : Bool
  pub realaspath : Bool
  pub nhop : Bool
  pub community : Bool
  pub addpath : Bool
  pub asn32bit : Bool
  pub presofftab : Bool

abbrev pub no_flags : Flags
no_flags = record {
  sh = false;
  rd = false;
  wr = false;
  pm = false;
  withdrn = false;
  allwithdrn = false;
  pattr = false;
  nlri = false;
  allnlri = false;
  aspath = false;
  realaspath = false;
  nhop = false;
  community = false;
  addpath = false;
  asn32bit = false;
  presofftab = false;
}

-- The `BGPF_` bits that a caller passes.
pub record OpenFlags : Type 0 where
  pub nocopy : Bool
  pub use_addpath : Bool
  pub use_asn32bit : Bool

-- `nhptr` to `nhend`: what is left of `nhbuf`, or an interval of the packet.
pub data Hops : Type 0 where
  in_nhbuf : List ℕ → Hops
  in_packet : ℕ → ℕ → Hops

-- The fields of an iteration over an AS path; the last four are `as_pathent_t`. `ascount` is an int16_t
-- and `segno` an int, -1 being 2^16 - 1 and 2^32 - 1.
pub record AsPath : Type 0 where
  pub asptr : ℕ
  pub asend : ℕ
  pub as4ptr : ℕ
  pub as4end : ℕ
  pub seglen : ℕ
  pub segi : ℕ
  pub ascount : ℕ
  pub as_size : ℕ
  pub type : ℕ
  pub segno : ℕ
  pub as_number : ℕ

abbrev pub no_path : AsPath
no_path = record {
  asptr = 0;
  asend = 0;
  as4ptr = 0;
  as4end = 0;
  seglen = 0;
  segi = 0;
  ascount = 0;
  as_size = 0;
  type = 0;
  segno = 0;
  as_number = 0;
}

-- `bgp_msg_t`. `buf` is the packet buffer; `fast` says that it is the embedded `fastbuf`, and while
-- it is not, `spare` holds the contents of `fastbuf`. `moved` says that the buffer was moved since
-- `ustart`, `uptr` and `uend` were set, so that they point into the buffer left behind.
pub record Msg : Type 0 where
  pub flags : Flags
  pub err : Err
  pub buf : List ℕ
  pub fast : Bool
  pub spare : List ℕ
  pub pktlen : ℕ
  pub bufsiz : ℕ
  pub params : ℕ
  pub pptr : ℕ
  pub ustart : ℕ
  pub uptr : ℕ
  pub uend : ℕ
  pub moved : Bool
  pub pfxbuf : NetAddrAp
  pub presbuf : List ℕ
  pub offtab : List ℕ
  pub ccode : ℕ
  pub nh : Hops
  pub mpnh : Option (ℕ × ℕ)
  pub mpfamily : Family
  pub mpbitlen : ℕ
  pub path : AsPath

-- What the allocator returns for a size: a block, or NULL.
abbrev pub Alloc : Type 0
Alloc = ℕ → Option (List ℕ)

abbrev pub M : Type 0 → Type 0
M A = Msg → Option (A × Msg)

unfoldable pub bind_option : {A B : Type 0} → (A → M B) → Option (A × Msg) → Option (B × Msg)
bind_option k none = none
bind_option k (some (a, m)) = k a m

infixl 5 ◌>>=◌ ◌>>◌
abbrev pub ◌>>=◌ : {A B : Type 0} → M A → (A → M B) → M B
◌>>=◌ f k m = bind_option k (f m)

abbrev pub ◌>>◌ : {A B : Type 0} → M A → M B → M B
f >> g = f >>= λ _. g

abbrev pub return : {A : Type 0} → A → M A
return a m = some (a, m)

-- A step that changes the message only.
abbrev pub modify : (Msg → Msg) → M (Unit {0})
modify f m = some (tt, f m)

-- A read of the message, or of memory that may be out of range.
abbrev pub gets : {A : Type 0} → (Msg → A) → M A
gets f m = some (f m, m)

abbrev pub access : {A : Type 0} → (Msg → Option A) → M A
access f m = elim (f m) [ none ↦ none | some a ↦ some (a, m) ]

-- `BGP_EINVOP` is latched unless the test holds; an earlier error is kept.
abbrev pub latch : Bool → Msg → Msg
latch true m = m
latch false m = record m { err = if is_ok m.err then einvop else m.err }

-- `CHECKFLAGSR`: goes on only with the flags set and no error.
unfoldable pub check_flags : {A : Type 0} → (Flags → Bool) → (Err → A) → M A → M A
check_flags has fail body m =
    let m' = latch (has m.flags) m in if is_ok m'.err then body m' else some (fail m'.err, m')

abbrev pub type_offset : ℕ
type_offset = 18

-- `CHECKTYPEANDFLAGSR`, and `CHECKTYPER` with a test that always holds. The two tests of the macro
-- latch the same error.
unfoldable pub check_type : {A : Type 0} → ℕ → (Flags → Bool) → (Err → A) → M A → M A
check_type type has fail body m = elim (get_elem? m.buf type_offset) [
  | none ↦ none
  | some t ↦ check_flags (λ f. t == type && has f) fail body m
]

-- Runs: one step and the rest; the two checks passed.
pub step :
    {A B : Type 0} (k : A → M B) {o : Option (A × Msg)} {a : A} {m : Msg} {r : Option (B × Msg)}
    → o ≡ some (a, m)
    → k a m ≡ r
    → bind_option k o ≡ r
step k {o} {a} {m} {r} e h = rw e (unfold bind_option in h)

pub if_true :
    {A : Type 0} (b : Bool) (f g : M A) (m : Msg) {r : Option (A × Msg)}
    → b ≡ true
    → f m ≡ r
    → (if b then f else g) m ≡ r
if_true b f g m e h = rw e h

pub if_false :
    {A : Type 0} (b : Bool) (f g : M A) (m : Msg) {r : Option (A × Msg)}
    → b ≡ false
    → g m ≡ r
    → (if b then f else g) m ≡ r
if_false b f g m e h = rw e h

pub access-some :
    {A : Type 0} (f : Msg → Option A) (m : Msg) {a : A} → f m ≡ some a → access f m ≡ some (a, m)
access-some f m e = rw (e, access)

pub given_some :
    {A : Type 0} (o : Option A) (m : Msg) {a : A} → o ≡ some a → access (λ _. o) m ≡ some (a, m)
given_some o m e = rw (e, access)

latch-true : (b : Bool) (m : Msg) → b ≡ true → latch b m ≡ m
latch-true b m e = rw e

latch_passed : (b : Bool) (m : Msg) → b ≡ true → m.err ≡ enoerr → is_ok (latch b m).err ≡ true
latch_passed b m e h = rw e (rw h)

pub check_flags_ok :
    {A : Type 0} (has : Flags → Bool) (fail : Err → A) (body : M A) (m : Msg) {r : Option (A × Msg)}
    → has m.flags ≡ true
    → m.err ≡ enoerr
    → body m ≡ r
    → check_flags has fail body m ≡ r
unfolding check_flags
check_flags_ok has fail body m e h b =
    rw (latch_passed (has m.flags) m e h, latch-true (has m.flags) m e) b

abbrev pub any_flags : Flags → Bool
any_flags f = true

-- `BGP_OPEN` to `BGP_CLOSE`
abbrev pub bgp_open : ℕ
bgp_open = 1

abbrev pub bgp_update : ℕ
bgp_update = 2

abbrev pub bgp_notification : ℕ
bgp_notification = 3

abbrev pub bgp_keepalive : ℕ
bgp_keepalive = 4

abbrev pub bgp_route_refresh : ℕ
bgp_route_refresh = 5

abbrev pub bgp_close : ℕ
bgp_close = 255

-- The offsets of the packet's fields.
abbrev pub length_offset : ℕ
length_offset = 16

abbrev pub base_packet_length : ℕ
base_packet_length = 19

abbrev pub version_offset : ℕ
version_offset = 19

abbrev pub my_as_offset : ℕ
my_as_offset = 20

abbrev pub hold_time_offset : ℕ
hold_time_offset = 22

abbrev pub iden_offset : ℕ
iden_offset = 24

abbrev pub params_length_offset : ℕ
params_length_offset = 28

abbrev pub params_offset : ℕ
params_offset = 29

-- The marker before every packet.
abbrev pub bgp_marker : List ℕ
bgp_marker = replicate 16 255
