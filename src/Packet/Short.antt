-- ===== src/Packet/Short.antt =====
-- src/transport/rqc_packet_parser.c: the header of a short packet, as it is written to a buffer and
-- read from a datagram. Pointers into a buffer are offsets from its start.
pub mod Write
pub mod RoundTrip
use rquic.Base.{
  ℕ, zero, suc, ◌+◌, ◌-◌, ◌*◌, ◌^◌, Bool, true, false, List, [], ◌∷◌, ◌++◌, take, drop,
}
use rquic.Base.{bit_and, bit_or, ltb, leb, ◌==◌, if◌then◌else◌, length, Option, none, some}
use rquic.Vint.{vint_read, vint_write}
use rquic.RecvRecord.{RecvRecord, recv_record_largest}
use rquic.Cid.{Cid, CidSet}
use rquic.Cid
use rquic.Cid.Sets.{conn_check_dcid}
use rquic.Packet.{
  short_packet_header_size, write_packet_number, decode_packet_number, pktlen_bytes,
  pktno_class_bytes,
}

-- Of rqc_packet_out_t: `po_buf` holds the bytes of the buffer, as many as it has room for.
pub record PacketOut : Type 0 where
  pub po_buf : List ℕ
  pub po_used_size : ℕ
  pub po_ppktno : ℕ
  pub po_payload : ℕ

-- `memcpy(buf, bytes, ...)`
pub over : List ℕ → List ℕ → List ℕ
over [] old = old
over (b ∷ bytes) [] = []
over (b ∷ bytes) (o ∷ old) = b ∷ over bytes old

-- `memcpy(buf + at, bytes, ...)`
pub overwrite : ℕ → List ℕ → List ℕ → List ℕ
overwrite zero bytes old = over bytes old
overwrite (suc at) bytes [] = []
overwrite (suc at) bytes (o ∷ old) = o ∷ overwrite at bytes old

-- `0x40 | spin_bit << 5 | reserved_bits << 3 | pktno_class`
pub short_first_byte : ℕ → ℕ
short_first_byte pktno_class = bit_or (bit_or (bit_or 64 (1 * 2 ^ 5)) (0 * 2 ^ 3)) pktno_class

-- rqc_gen_short_packet_header: `need`, or `none` for -RQC_ENOBUF, and the packet. The two bytes of
-- the length are left as they are.
pub gen_short_packet_header : PacketOut → List ℕ → ℕ → ℕ → Option ℕ × PacketOut
gen_short_packet_header packet_out dcid pktno_class packet_number =
    let need = short_packet_header_size (length dcid) pktno_class in
    let ppktno = 1 + length dcid + pktlen_bytes in
    let number = write_packet_number packet_number pktno_class in
    if ltb (length packet_out.po_buf - packet_out.po_used_size) need then (none, packet_out) else (
      some need,
      record packet_out {
        po_buf =
            overwrite ppktno number (over (short_first_byte pktno_class ∷ dcid) packet_out.po_buf);
        po_ppktno = ppktno;
        po_payload = ppktno + length number;
      },
    )

-- rqc_update_packet_length
pub update_packet_length : PacketOut → PacketOut
update_packet_length packet_out =
    let length = packet_out.po_used_size - packet_out.po_ppktno in
    record packet_out {
      po_buf =
          overwrite (packet_out.po_ppktno - pktlen_bytes) (vint_write length 1 2) packet_out.po_buf;
    }

-- rqc_short_packet_update_dcid on a short packet
pub short_packet_update_dcid : PacketOut → List ℕ → PacketOut
short_packet_update_dcid packet_out dcid = record packet_out {
  po_buf = overwrite 1 dcid packet_out.po_buf;
}

-- Of rqc_packet_in_t and its rqc_packet_t
pub record PacketIn : Type 0 where
  pub buf : List ℕ
  pub pos : ℕ
  pub last : ℕ
  pub pkt_num : ℕ
  pub pkt_dcid : Cid
  pub length : ℕ
  pub pkt_num_offset : ℕ

-- What rqc_packet_parse_short_header uses of rqc_connection_t: `ctl_recv_record` is the record of
-- the path that the packet came on, if it is known.
pub record Connection : Type 0 where
  pub scid_set : CidSet
  pub user_scid_len : ℕ
  pub ctl_recv_record : Option RecvRecord
  pub is_client : Bool
  pub discard_vn_flag : Bool

-- RQC_OK and -RQC_EILLPKT
pub data Status : Type 0 where
  ok eillpkt : Status

-- RQC_BUFF_LEFT_SIZE; subtraction stops at 0 as the macro does.
abbrev pub buff_left_size : ℕ → ℕ → ℕ
buff_left_size pos last = last - pos

-- `pos[0]`; a byte behind the buffer reads as 0.
pub first_byte : List ℕ → ℕ
first_byte [] = 0
first_byte (b ∷ bytes) = b

-- RQC_PACKET_HEADER_PKTNO_BYTES
pub header_pktno_bytes : List ℕ → ℕ
header_pktno_bytes buf = bit_and (first_byte buf) 3 + 1

unfoldable pub largest_received : Option RecvRecord → ℕ
largest_received none = 0
largest_received (some record_) = recv_record_largest record_

-- rqc_packet_decode_packet_number: the bytes at `pkt_num_offset`, as many as the first byte of the
-- buffer says.
pub packet_decode_packet_number : Connection → PacketIn → PacketIn
packet_decode_packet_number c packet_in = record packet_in {
  pkt_num =
      decode_packet_number (largest_received c.ctl_recv_record)
        (drop packet_in.pkt_num_offset packet_in.buf) (header_pktno_bytes packet_in.buf);
}

-- rqc_packet_parse_short_header from the length on: `pos` behind the id, `end` of the datagram.
pub parse_length : Connection → PacketIn → ℕ → ℕ → ℕ → Status × Connection × PacketIn
parse_length c packet_in pktno_bytes pos end =
    elim (vint_read (take (end - pos) (drop pos packet_in.buf))) [
      | none ↦ (eillpkt, c, packet_in)
      | some (size, length) ↦
          let sized : PacketIn = record packet_in { last = pos + size + length; length = length } in
          let numbered : PacketIn = record sized { pkt_num_offset = pos + size } in
          let decoded : PacketIn = record (packet_decode_packet_number c numbered) {
            pos = pos + size + pktno_bytes;
          } in
          let flagged : Connection = record c { discard_vn_flag = true } in
          if ltb (buff_left_size pos end) (size + length)
          then (eillpkt, c, packet_in)
          else if ltb end sized.last
          then (eillpkt, c, sized)
          else if ltb length pktno_bytes
          then (eillpkt, c, numbered)
          else (ok, (if c.is_client then flagged else c), decoded)
    ]

pub packet_parse_short_header : Connection → PacketIn → Status × Connection × PacketIn
packet_parse_short_header c packet_in =
    let header = drop packet_in.pos packet_in.buf in
    let cid_len = c.user_scid_len in
    let dcid : Cid = record packet_in.pkt_dcid { cid_buf = take cid_len (drop 1 header) } in
    let checked = conn_check_dcid c.scid_set dcid in
    let named : PacketIn = record packet_in { pkt_dcid = checked.1 } in
    let known : Connection = record c { scid_set = checked.2 } in
    if ltb (buff_left_size packet_in.pos packet_in.last) (1 + cid_len)
    then (eillpkt, c, packet_in)
    else if bit_and (first_byte header) 64 == 0
    then (eillpkt, c, packet_in)
    else (elim checked.0 [
      | Cid.Status.ok ↦
          parse_length known named (header_pktno_bytes header) (packet_in.pos + 1 + cid_len)
            packet_in.last
      | _ ↦ (eillpkt, known, named)
    ])
