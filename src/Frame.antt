-- ===== src/Frame.antt =====
-- src/transport/rqc_frame_parser.c: QUIC frames and their bytes. This file holds what the frames
-- share: the packet that a frame is written to, the packet that it is read from, the errors.
pub mod Control
pub mod Values
pub mod Ack
mod Tests
use rquic.Base.{ℕ, ◌+◌, ◌-◌, ◌^◌, bit_or, none, some, List, drop}
use rquic.Vint.{vint_read, vint_write, vint_get_2bit, vint_len}

-- Of rqc_packet_out_t: the size of its buffer, the bytes in use, and the set of frame types.
pub record PacketOut : Type 0 where
  pub po_buf_size : ℕ
  pub po_used_size : ℕ
  pub po_frame_types : ℕ

-- RQC_ACK_SPACE
abbrev pub ack_space : ℕ
ack_space = 16

pub get_po_remained_size : PacketOut → ℕ
get_po_remained_size po = po.po_buf_size - po.po_used_size

pub get_po_remained_size_with_ack_spc : PacketOut → ℕ
get_po_remained_size_with_ack_spc po = po.po_buf_size + ack_space - po.po_used_size

-- Of rqc_packet_in_t: the bytes between `pos` and `last`, how far `pos` lies behind `last`, and the
-- set of frame types.
pub record PacketIn : Type 0 where
  pub unread : List ℕ
  pub overrun : ℕ
  pub pi_frame_types : ℕ

-- -RQC_ENOBUF, -RQC_EVINTREAD, -RQC_EILLFRAME, -RQC_ENULLPTR
pub data Error : Type 0 where
  enobuf evintread eillframe enullptr : Error

pub data Result {ℓ} (A : Type ℓ) : Type ℓ where
  ok : A → Result A
  err : Error → Result A

infixl 5 ◌>>=◌
abbrev pub ◌>>=◌ {ℓ κ} : {A : Type ℓ} {B : Type κ} → Result A → (A → Result B) → Result B
ok a >>= f = f a
err e >>= f = err e

-- rqc_frame_type_t
pub data FrameType : Type 0 where
  padding ping ack handshake reset_stream stop_sending stream max_data max_stream_data max_streams
        data_blocked stream_data_blocked streams_blocked path_challenge path_response
        connection_close extension datagram :
      FrameType

-- rqc_frame_type_bit_t
pub frame_bit : FrameType → ℕ
frame_bit padding = 2 ^ 0
frame_bit ping = 2 ^ 1
frame_bit ack = 2 ^ 2
frame_bit handshake = 2 ^ 3
frame_bit reset_stream = 2 ^ 4
frame_bit stop_sending = 2 ^ 5
frame_bit stream = 2 ^ 6
frame_bit max_data = 2 ^ 7
frame_bit max_stream_data = 2 ^ 8
frame_bit max_streams = 2 ^ 9
frame_bit data_blocked = 2 ^ 10
frame_bit stream_data_blocked = 2 ^ 11
frame_bit streams_blocked = 2 ^ 12
frame_bit path_challenge = 2 ^ 13
frame_bit path_response = 2 ^ 14
frame_bit connection_close = 2 ^ 15
frame_bit extension = 2 ^ 16
frame_bit datagram = 2 ^ 17

-- `packet_out->po_frame_types |= ...`
pub mark_out : FrameType → PacketOut → PacketOut
mark_out type packet_out = record packet_out {
  po_frame_types = bit_or packet_out.po_frame_types (frame_bit type);
}

-- `packet_in->pos = p; packet_in->pi_frame_types |= ...`
pub advance : FrameType → List ℕ → PacketIn → PacketIn
advance type p packet_in = record packet_in {
  unread = p;
  pi_frame_types = bit_or packet_in.pi_frame_types (frame_bit type);
}

-- A value with `rqc_vint_write`, and the bytes that it takes.
pub vint_bytes : ℕ → List ℕ
vint_bytes val = vint_write val (vint_get_2bit val) (vint_len (vint_get_2bit val))

pub vint_size : ℕ → ℕ
vint_size val = vint_len (vint_get_2bit val)

-- `vlen = rqc_vint_read(p, end, &val); if (vlen < 0) return -RQC_EVINTREAD; p += vlen;`
pub next : List ℕ → Result (ℕ × List ℕ)
next p = elim (vint_read p) [ none ↦ err evintread | some (vlen, val) ↦ ok (val, drop vlen p) ]
