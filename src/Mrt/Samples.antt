-- ===== src/Mrt/Samples.antt =====
-- A message of src/mrt.c for a packet, as it is before the first operation.
use isocore.Base.{ℕ, ◌+◌, true, false, List, ◌++◌, none, length, replicate}
use isocore.Mrt.{enoerr, no_flags, PeerEntry, MrtMsg, zero_addr}
use isocore.Mrt.Packet.{encode_header}

abbrev no_peer : PeerEntry
no_peer = record { as_size = 0; as_number = 0; id = replicate 4 0; addr = zero_addr }

-- A message for a packet with the given header's type, subtype and body.
abbrev pub holding : ℕ → ℕ → List ℕ → MrtMsg
holding type subtype body = record {
  flags = no_flags;
  err = enoerr;
  bufsiz = 12 + length body;
  peer_index = false;
  hdr = record { tv_sec = 0; tv_nsec = 0; type = type; subtype = subtype; len = length body };
  entry = no_peer;
  peptr = 0;
  ribhdr = record { seqno = 0; afi = 0; safi = 0; nlri = zero_addr };
  ribent = record {
    peer_idx = 0;
    attr_length = 0;
    seqno = 0;
    originated = 0;
    nlri = zero_addr;
    pathid = 0;
    attrs = 0;
  };
  ribpe = no_peer;
  reptr = 0;
  bgp4mphdr = record {
    peer_as = 0;
    local_as = 0;
    peer_addr = zero_addr;
    local_addr = zero_addr;
    iface = 0;
    old_state = 0;
    new_state = 0;
  };
  zebrahdr = record {
    peer_as = 0;
    peer_addr = zero_addr;
    old_state = 0;
    new_state = 0;
    local_as = 0;
    local_addr = zero_addr;
  };
  buf = encode_header 0 type subtype (length body) ++ body;
  fast = true;
  pitab = none;
  fast_pitab = false;
  picount = 0;
}
