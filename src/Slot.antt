-- ===== src/Slot.antt =====
-- ffrdp.c, FFRDP_FRAME_NODE: a frame in a ring slot, slot_used, slot_reset and frame_payload_size.
-- `kind` is data[0], `seq` the 24-bit number in data[1..3], and `body` the bytes written from
-- data[4] on since slot_reset. The flags are the bits of `flags`.
use ffrdp.Base.{ℕ, ◌+◌, Bool, true, false, List, []}
use ffrdp.Base.{u24, leb, if◌then◌else◌}
use ffrdp.Base.Int.{ℤ, sub_ℕ}

pub record Slot : Type 0 where
  pub used : Bool
  pub fill : Bool
  pub was_read : Bool
  pub first_send : Bool
  pub timeout_resend : Bool
  pub fast_resend : Bool
  pub resent : Bool
  pub size : ℕ
  pub kind : ℕ
  pub seq : ℕ
  pub body : List ℕ
  pub tick_1sts : ℕ
  pub tick_send : ℕ
  pub tick_timeout : ℕ
  pub ticket : ℕ
  pub tick_retx : ℕ

-- FFRDP_FRAME_TYPE_FULL, _SHORT, _FEC32, _ACK, _QUERY and _HANDSHAKE.
abbrev pub type_full : ℕ
type_full = 0

abbrev pub type_short : ℕ
type_short = 1

abbrev pub type_fec32 : ℕ
type_fec32 = 32

abbrev pub type_ack : ℕ
type_ack = 33

abbrev pub type_query : ℕ
type_query = 34

abbrev pub type_handshake : ℕ
type_handshake = 35

-- A slot as `memset` of the node leaves it, with the USED flag, size and type that slot_reset sets;
-- it does not touch the number and the bytes of the frame, which its callers write next.
unfoldable pub slot_reset : Slot → ℕ → ℕ → Slot
slot_reset p kind size = record {
  used = true;
  fill = false;
  was_read = false;
  first_send = false;
  timeout_resend = false;
  fast_resend = false;
  resent = false;
  size = size;
  kind = kind;
  seq = p.seq;
  body = [];
  tick_1sts = 0;
  tick_send = 0;
  tick_timeout = 0;
  ticket = 0;
  tick_retx = 0;
}

-- `node->size - 4 - (node->data[0] <= FFRDP_FRAME_TYPE_SHORT ? 0 : 2)`, an `int`.
unfoldable pub frame_payload_size : Slot → ℤ
frame_payload_size p = sub_ℕ p.size (4 + (if leb p.kind type_short then 0 else 2))

-- SET_FRAME_SEQ
abbrev pub set_frame_seq : Slot → ℕ → Slot
set_frame_seq p seq = record p { seq = u24 seq }

-- A slot as calloc leaves it.
abbrev pub empty_slot : Slot
empty_slot = record {
  used = false;
  fill = false;
  was_read = false;
  first_send = false;
  timeout_resend = false;
  fast_resend = false;
  resent = false;
  size = 0;
  kind = 0;
  seq = 0;
  body = [];
  tick_1sts = 0;
  tick_send = 0;
  tick_timeout = 0;
  ticket = 0;
  tick_retx = 0;
}
