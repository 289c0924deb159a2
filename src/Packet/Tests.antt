-- ===== src/Packet/Tests.antt =====
-- Concrete runs of packet numbers and short headers.
use rquic.Base.{ℕ, ◌+◌, ◌*◌, ◌/◌, ◌^◌, ◌≡◌, ◌≤◌, ◌<◌, refl, arith, false, List, [], ◌∷◌, ◌++◌, some}
use rquic.Cid.{Cid, CidSetInner, cid_is_equal, same_bytes, rank, CidState.used, SetState.set_used}
use rquic.RecvRecord.{recv_record_largest}
use rquic.Cid.Sets.{conn_check_dcid, search_node, find_node}
use rquic.Packet.{calc_packet_number, decode_packet_number, write_packet_number, pktno_class_bytes}
use rquic.Packet.Number.{decode-write_packet_number}
use rquic.Packet.Short.{Connection, Status.ok, packet_parse_short_header, largest_received}
use rquic.Packet.Short.Write.{written, header_len}
use rquic.Packet.Short.RoundTrip.{received, packet_parse-gen_short_packet_header}

-- The example of RFC 9000, A.3.
rfc_example : calc_packet_number 2821665002 39730 16 ≡ 2821692210
unfolding calc_packet_number
rfc_example = refl

decode-write_packet_number_example :
    decode_packet_number 2821665002
      (write_packet_number 2821692210 1 ++ 5 ∷ 6 ∷ [])
      (pktno_class_bytes 1)
    ≡ 2821692210
decode-write_packet_number_example =
    decode-write_packet_number 2821665002 2821692210 1 (5 ∷ 6 ∷ []) (omega arith) (omega arith)
      (omega arith) above below
  where
    above : 2821665002 + 1 < 2821692210 + 2 ^ (pktno_class_bytes 1 * 8) / 2
    above = unfold pktno_class_bytes in omega arith

    below : 2821692210 ≤ 2821665002 + 1 + 2 ^ (pktno_class_bytes 1 * 8) / 2
    below = unfold pktno_class_bytes in omega arith

abbrev no_cid : Cid
no_cid = record { cid_buf = []; cid_seq_num = 0; path_id = 0 }

abbrev server_id : Cid
server_id = record { cid_buf = 17 ∷ 34 ∷ 51 ∷ []; cid_seq_num = 2; path_id = 0 }

abbrev server_ids : CidSetInner
server_ids = record {
  cid_list = record { cid = server_id; state = used; retired_ts = 0; acked = false } ∷ [];
  unused_cnt = 0;
  used_cnt = 1;
  retired_cnt = 0;
  path_id = 0;
  largest_seq_or_rpt = 2;
  set_state = set_used;
  acked_unused = 0;
}

abbrev server : Connection
server = record {
  scid_set = record {
    cid_set_list = server_ids ∷ [];
    unused_set_cnt = 0;
    used_set_cnt = 1;
    abandoned_set_cnt = 0;
  };
  user_scid_len = 3;
  ctl_recv_record =
      some
        (record { ranges = record { low = 90; high = 100 } ∷ []; rr_del_from = 0; node_count = 1 });
  is_client = false;
  discard_vn_flag = false;
}

abbrev empty_buf : List ℕ
empty_buf = 0 ∷ 0 ∷ 0 ∷ 0 ∷ 0 ∷ 0 ∷ 0 ∷ 0 ∷ 0 ∷ 0 ∷ 0 ∷ 0 ∷ []

-- The packet number 300 in two bytes, and two bytes of payload.
packet_parse-gen_short_packet_header_example :
    let out = written empty_buf (17 ∷ 34 ∷ 51 ∷ []) 1 300 (1 ∷ 2 ∷ []) in
    let p = received out.po_buf out.po_used_size no_cid in
    ((packet_parse_short_header server p).0 ≡ ok)
    × ((packet_parse_short_header server p).1.scid_set
        ≡ (conn_check_dcid server.scid_set (record no_cid { cid_buf = 17 ∷ 34 ∷ 51 ∷ [] })).2)
    × ((packet_parse_short_header server p).2.pos ≡ out.po_payload)
    × ((packet_parse_short_header server p).2.last ≡ out.po_used_size)
    × ((packet_parse_short_header server p).2.pkt_num ≡ 300)
unfolding conn_check_dcid search_node find_node cid_is_equal same_bytes rank largest_received
    header_len pktno_class_bytes recv_record_largest
packet_parse-gen_short_packet_header_example =
    packet_parse-gen_short_packet_header server no_cid empty_buf (17 ∷ 34 ∷ 51 ∷ []) (1 ∷ 2 ∷ []) 1
      300 (omega arith) (omega arith) (omega arith, (omega arith, tt)) (omega arith) refl refl
      (omega arith) (omega arith) (omega arith) (omega arith)
