-- ===== src/Packet.antt =====
-- src/transport/rqc_packet.h and rqc_packet_parser.c: packet numbers and the headers of packets.
pub mod Number
pub mod Short
mod Tests
use rquic.Base.{ℕ, zero, suc, ◌+◌, ◌-◌, ◌*◌, ◌/◌, ◌%◌, ◌^◌, Bool, ◌&&◌, List, [], ◌∷◌, ◌++◌}
use rquic.Base.{bit_and, bit_or, ltb, leb, ◌==◌, if◌then◌else◌}

-- rqc_pktno_class_bytes
pub pktno_class_bytes : ℕ → ℕ
pktno_class_bytes c = c + 1

-- RQC_PKTVER_BYTES
abbrev pub pktver_bytes : ℕ
pktver_bytes = 4

-- RQC_PKTLEN_BYTES
abbrev pub pktlen_bytes : ℕ
pktlen_bytes = 2

pub short_packet_header_size : ℕ → ℕ → ℕ
short_packet_header_size dcid_len pktno_class =
    1 + dcid_len + pktlen_bytes + pktno_class_bytes pktno_class

pub long_packet_header_size : ℕ → ℕ → ℕ → ℕ
long_packet_header_size dcid_len scid_len pktno_class =
    1 + pktver_bytes + 2 + dcid_len + scid_len + pktlen_bytes + pktno_class_bytes pktno_class

-- The bytes that rqc_write_packet_number writes; a byte keeps the low 8 bits.
pub write_packet_number : ℕ → ℕ → List ℕ
write_packet_number packet_number pktno_class =
    (if pktno_class_bytes pktno_class == 4 then packet_number / 2 ^ 24 % 256 ∷ [] else [])
    ++ ((if leb 3 (pktno_class_bytes pktno_class) then packet_number / 2 ^ 16 % 256 ∷ [] else [])
        ++ ((if leb 2 (pktno_class_bytes pktno_class) then packet_number / 2 ^ 8 % 256 ∷ [] else [])
            ++ packet_number % 256 ∷ []))

-- The loop of rqc_packet_parse_packet_number from `*packet_num` on, for that many bytes at `pos`.
-- Bytes behind the buffer read as 0.
pub parse_bytes : ℕ → ℕ → List ℕ → ℕ
parse_bytes zero packet_num pos = packet_num
parse_bytes (suc i) packet_num [] = parse_bytes i (packet_num * 2 ^ 8 % 2 ^ 64) []
parse_bytes (suc i) packet_num (b ∷ pos) =
    parse_bytes i ((packet_num * 2 ^ 8 % 2 ^ 64 + b) % 2 ^ 64) pos

pub parse_packet_number : List ℕ → ℕ → ℕ
parse_packet_number pos pktno_bytes = parse_bytes pktno_bytes 0 pos

-- rqc_packet_calc_packet_number on 64-bit words; `expected_pn & ~pn_mask` is a mask of 64 bits.
pub calc_packet_number : ℕ → ℕ → ℕ → ℕ
calc_packet_number largest_pn truncated_pn pn_nbits =
    let expected_pn = (largest_pn + 1) % 2 ^ 64 in
    let pn_win = 2 ^ pn_nbits in
    let pn_hwin = pn_win / 2 in
    let pn_mask = pn_win - 1 in
    let candidate_pn = bit_or (bit_and expected_pn (2 ^ 64 - 1 - pn_mask)) truncated_pn in
    if leb ((candidate_pn + pn_hwin) % 2 ^ 64) expected_pn && ltb candidate_pn (2 ^ 62 - pn_win)
    then (candidate_pn + pn_win) % 2 ^ 64
    else (if ltb ((expected_pn + pn_hwin) % 2 ^ 64) candidate_pn && leb pn_win candidate_pn
        then candidate_pn - pn_win
        else candidate_pn)

-- rqc_packet_decode_packet_number: from the largest packet number received (0 when there is none)
-- and the bytes at `pktno`.
pub decode_packet_number : ℕ → List ℕ → ℕ → ℕ
decode_packet_number largest_pn pktno pktno_bytes =
    calc_packet_number largest_pn (parse_packet_number pktno pktno_bytes) (pktno_bytes * 8)
