-- ===== src/Lib.antt =====
-- isocore, a C library to read and write BGP packets and MRT dumps.
--
-- Modelled are the network addresses, the patricia trie of prefixes, the BGP messages, the
-- MRT packets that hold them, and the splitting, joining and escaping of strings.
--
-- NetAddr: include/isolario/netaddr.h and src/netaddr.c. A `netaddr_t` is a record of a family, a
--   length in bits and a list of bytes; `u16_at` and `u32_at` read the members of its union. The
--   comparisons under a mask are set against the string of the bits of an address (NetAddr/Bits,
--   NetAddr/Compare, NetAddr/Unrolled), `isnaddrreserved` against a table of blocks
--   (NetAddr/Reserved). `patcompwithmask` of src/patriciatrie.c, on which the trie rests, stands with
--   them.
-- Patricia: src/patriciatrie.c and include/isolario/patriciatrie.h. The nodes below the head are a tree,
--   NULL is `nil`; a parent pointer is the way from the head, a list of frames (Patricia/Path). A node
--   is a plain or a glue node, or one that was put on the free list while it hangs in the tree. A
--   function of the C code is the definition of its name; `none` is a fault (an access through NULL, to
--   a released node, outside of an array, or to an entry that was not written), and a NULL that is
--   returned is a `none` inside. Patricia/Shape: what a well-formed trie is, and the list of what it
--   holds. Patricia/Search: the searches along one path; their proofs are in Patricia/Lookup (the exact
--   search) and Patricia/Above (supernets and the best match), on Patricia/BitOf. Patricia/Walk: the
--   iterator, `patcoverage` and `patgetfirstsubnetsofn`, the last with its proofs in Patricia/Walk/Firsts
--   (the visit) and Patricia/Walk/Within (the subnets in the whole trie). Patricia/Subnets: the visits that read their
--   stack one entry too high. Patricia/Pages: the free list. Patricia/Insert, Patricia/Remove: changing
--   the trie. Patricia/Hidden: an insertion that makes prefixes unreachable.
-- Bgp: src/bgp.c and include/isolario/bgp.h. A `bgp_msg_t` is a record; pointers into the packet are
--   offsets into its buffer, NULL is offset 0. An operation of the C code, `name_r`, is a definition
--   `name_r` from a message to an option: `none` is an access outside of the buffer, through a pointer
--   into a buffer left behind, or a failed assertion; `some` is the returned value and the message that
--   is left. A return of NULL is a `none` inside. The versions without `_r` only pass the message of
--   the thread, and are left out. The error latch and the macros that check the type and the flags are
--   `latch`, `check_flags` and `check_type`.
--   Bgp/Fields: where the three fields of an update message are. Bgp/Pending: closing a field.
--   Bgp/Packet: opening, growing, finishing and closing. Bgp/Data: the contents as a whole.
--   Bgp/Open: open messages and capabilities. Bgp/Attribs: path attributes, their iteration and the
--   table of their offsets (`seekbgpattr`). Bgp/Start, Bgp/Prefixes, Bgp/Put: starting, reading and
--   writing the withdrawn and announced prefixes. Bgp/MpAttr: the multiprotocol attributes (with
--   src/bgpattribs.c and include/isolario/bgpattribs.h), to which the iterators turn.
--   Bgp/Communities: the iteration over communities; what it returns is in Bgp/Communities/Read.
--   Bgp/AsPaths: the iteration over AS paths; what it returns is in Bgp/AsPaths/Iterate, on the
--   loop over segments in Bgp/AsPaths/Loop, and how AS_PATH and AS4_PATH are
--   counted in Bgp/AsPaths/Count, with `startrealaspath_r` in Bgp/AsPaths/Real. Bgp/Getters: other attributes by their codes.
--   Bgp/NextHop: the iteration over next hops, and its results in Bgp/NextHop/Read.
--   The other proofs: Bgp/Latch on the error latch, Bgp/Grow on `bgpensure`, Bgp/Iterate on the step of the
--   attribute iteration, Bgp/Overrun on writes outside of their memory, Bgp/Inverse on what is written
--   and read back.
-- Mrt: src/mrt.c and include/isolario/mrt.h. A `mrt_msg_t` is a record that is passed on like a BGP
--   message; the outcome of an operation tells a fault (an access outside of the buffer, or through
--   NULL) from an early return and from a result. The peer index that a message points to is an
--   argument of the operations that follow the pointer, `picount` and `pitab` are its fields.
--   Mrt/Table: the flags of each type and subtype. Mrt/Open: reading a packet from a stream or from
--   memory (`io_mread` of src/io.c); what it leaves is in Mrt/Open/Opened. Mrt/Peers: the peer index
--   and `setuppitable`, with Mrt/Peers/Read, Setup and Table on what is read of a written one. Mrt/Rib:
--   TABLE_DUMPV2, with Mrt/Rib/Header, Lookup and Entry. Mrt/Legacy: TABLE_DUMP, and the operations
--   that serve both. Mrt/Headers: BGP4MP and Zebra headers, with Mrt/Headers/Safety, Inverse and
--   Written. Mrt/Safe and Mrt/Memory are on accesses, Mrt/Run and Mrt/Packet on results: the first of
--   each has the rules for the primitive operations, by which the proofs go along the code.
-- Strutil: `splitstr`, `joinstr`, `strescape` and `strunescape` of src/strutil.c. A string is the list of
--   its characters before the NUL; `none` is a loop that does not end, or a write outside of the memory
--   that was allocated. Strutil/Join, Strutil/Split and Strutil/Escape have the proofs.
-- Base: tests on numbers, lists over the native numbers, byte buffers with bounds (`read_bytes`,
--   `write_bytes`), big endian numbers (include/isolario/endian.h), windows of a buffer.
--
-- Numbers: `pktlen` wraps at 2^16 and differences of pointers at 2^64, written out. `msg->err` and the
-- flags are data. The members of the union in `bgp_msg_t` are fields of their own. The allocator is a
-- parameter, a function from a size to a block or nothing, as is the stream that packets are read
-- from; `realloc` is taken to move the buffer. `__builtin_clz`, which the insertion into the trie
-- calls, is a parameter, and a Boolean says whether the trie's `malloc` succeeds.
-- Fuel: the loop over optional parameters has 256, for a length byte and parameters of two bytes at
-- least; the loop of `seekbgpattr` has as much as the field has bytes, and one more, each attribute
-- taking three; `next_segment` has as much as there are bytes before the end of the path, and two more,
-- a segment taking two; the count of the entries of a TABLE_DUMP has as
-- much as the packet has bytes, and one more; `nextaspath_r` calls itself once at most, at the turn to AS4_PATH. The visits of
-- a trie are right with more fuel than the trie has nodes, which each of them visits once. The loops of
-- `splitstr` have as much as the string has characters, and one more, each occurrence of a delimiter
-- that is not empty taking one.
--
-- Not modelled: the conversion from MRT (`rebuildbgpfrommrt_r`) of src/bgp.c; the text forms of
-- addresses, and the variants of the trie's functions that take them; `patdestroy`, which frees memory;
-- `setmrtheader` and `setribents`, which are stubs; the rest of src/strutil.c, JSON, hex dumps, the
-- parser of configurations, 128-bit integers, the packet filter, the pool; and what only does input or
-- output (the files of src/io.c, src/log.c, src/sockets.c, src/dumppacket.c).
pub mod Base
pub mod NetAddr
pub mod Bgp
pub mod Patricia
pub mod Mrt
pub mod Strutil
