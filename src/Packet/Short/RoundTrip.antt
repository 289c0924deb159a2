-- ===== src/Packet/Short/RoundTrip.antt =====
-- A short packet that is written to a buffer and read back by a connection that knows its id.
use rquic.Base.{ℕ, ◌+◌, ◌-◌, ◌*◌, ◌/◌, ◌^◌, ◌≤◌, ◌<◌, ◌≡◌, refl, sym, ap, ap₂, ◌∙◌, arith}
use rquic.Base.{
  Bool, true, false, List, ◌∷◌, ◌++◌, append_assoc, take, drop, length, All, All-append,
}
use rquic.Base.{length-append, drop-append, take-append, some, ltb, le→ltb, ◌==◌}
use rquic.Base.{bit_and, if◌then◌else◌}
use rquic.Vint.{IsByte, vint_read}
use rquic.Vint.Write.{encode_as, length-encode_as, vint_read-encode_as}
use rquic.Cid.{Cid}
use rquic.Cid
use rquic.Cid.Sets.{conn_check_dcid}
use rquic.Packet.{write_packet_number, decode_packet_number, pktno_class_bytes}
use rquic.Packet.Number.{decode-write_packet_number}
use rquic.Packet.Short.{
  PacketOut, PacketIn, Connection, Status, Status.ok, short_first_byte, first_byte,
  header_pktno_bytes, largest_received, packet_decode_packet_number, parse_length,
  packet_parse_short_header,
}
use rquic.Packet.Short.Write.{
  short_packet, header_len, written, written-short_packet, first_bits, write_packet_number-IsByte,
  length-write_packet_number,
}

flagged-scid_set :
    (c : Connection) (b : Bool)
    → (if b then record c { discard_vn_flag = true } else c).scid_set ≡ c.scid_set
flagged-scid_set c true = refl
flagged-scid_set c false = refl

-- From the length on.
parse_length_lem :
    (c : Connection) (p : PacketIn) (pktno_bytes pos end len : ℕ)
    → vint_read (take (end - pos) (drop pos p.buf)) ≡ some (2, len)
    → pos + 2 + len ≡ end
    → pktno_bytes ≤ len
    → ((parse_length c p pktno_bytes pos end).0 ≡ ok)
      × ((parse_length c p pktno_bytes pos end).1.scid_set ≡ c.scid_set)
      × ((parse_length c p pktno_bytes pos end).2.pos ≡ pos + 2 + pktno_bytes)
      × ((parse_length c p pktno_bytes pos end).2.last ≡ end)
      × ((parse_length c p pktno_bytes pos end).2.pkt_num
          ≡ decode_packet_number
              (largest_received c.ctl_recv_record)
              (drop (pos + 2) p.buf)
              (header_pktno_bytes p.buf))
unfolding packet_decode_packet_number parse_length decode_packet_number
parse_length_lem c p pktno_bytes pos end len h e l =
    let t : ltb (end - pos) (2 + len) ≡ false = le→ltb _ _ (omega (arith, e)) in
    let u : ltb end (pos + 2 + len) ≡ false = le→ltb _ _ (omega (arith, e)) in
    let w : ltb len pktno_bytes ≡ false = le→ltb _ _ l in
    rw (h, t, u, w, parse_length) (refl, flagged-scid_set c c.is_client, refl, e, refl)

-- What stands behind one field and behind two, and the first three fields.
drop_one : (h t : List ℕ) (k : ℕ) → k ≡ length h → drop k (h ++ t) ≡ t
drop_one h t k e = rw e (drop-append h t)

drop_two : (h l t : List ℕ) (k : ℕ) → k ≡ length h + length l → drop k (h ++ (l ++ t)) ≡ t
drop_two h l t k e =
    ap (λ (xs : List ℕ). drop k xs) (sym (append_assoc h l t))
    ∙ drop_one (h ++ l) t k (e ∙ sym (length-append h l))

take_three :
    (l n p rest : List ℕ) (k : ℕ)
    → k ≡ length l + length n + length p
    → take k (l ++ (n ++ (p ++ rest))) ≡ l ++ (n ++ p)
take_three l n p rest k e =
    let len : k ≡ length (l ++ (n ++ p)) =
      omega (arith, e, length-append l (n ++ p), length-append n p) in
    let same : l ++ (n ++ (p ++ rest)) ≡ (l ++ (n ++ p)) ++ rest = simp append_assoc refl in
    rw (same, len) (take-append (l ++ (n ++ p)) rest)

-- A packet as the receiver has it.
pub received : List ℕ → ℕ → Cid → PacketIn
received buf last pkt_dcid = record {
  buf = buf;
  pos = 0;
  last = last;
  pkt_num = 0;
  pkt_dcid = pkt_dcid;
  length = 0;
  pkt_num_offset = 0;
}

-- The first checks pass.
checks_pass :
    (conn : Connection) (pkt_dcid : Cid) (buf : List ℕ) (last : ℕ)
    → 1 + conn.user_scid_len ≤ last
    → bit_and (first_byte buf) 64 ≡ 64
    → (conn_check_dcid conn.scid_set
        (record pkt_dcid { cid_buf = take conn.user_scid_len (drop 1 buf) })).0
      ≡ Cid.Status.ok
    → let checked =
        conn_check_dcid conn.scid_set
          (record pkt_dcid { cid_buf = take conn.user_scid_len (drop 1 buf) }) in
      packet_parse_short_header conn (received buf last pkt_dcid)
      ≡ parse_length
          (record conn { scid_set = checked.2 })
          (received buf last checked.1)
          (header_pktno_bytes buf)
          (0 + 1 + conn.user_scid_len)
          last
unfolding received packet_parse_short_header
checks_pass conn pkt_dcid buf last room bit known =
    let t : ltb (last - 0) (1 + conn.user_scid_len) ≡ false = le→ltb _ _ (omega (arith, room)) in
    let u : (bit_and (first_byte buf) 64 == 0) ≡ false = rw bit refl in
    rw (t, u, known, packet_parse_short_header) refl

-- The length that is read.
length_value :
    (dcid payload rest : List ℕ) (c pn k n : ℕ)
    → c < 4
    → c + 1 + length payload < 2 ^ 14
    → All IsByte payload
    → k ≡ 1 + length dcid
    → n ≡ 2 + (c + 1) + length payload
    → vint_read (take n (drop k (short_packet dcid c pn payload rest)))
      ≡ some (2, c + 1 + length payload)
unfolding short_packet pktno_class_bytes
length_value dcid payload rest c pn k n h fits bytes ek en =
    let number : List ℕ = write_packet_number pn c in
    let sized : List ℕ = encode_as 1 (c + 1 + length payload) in
    let behind =
      drop_one (short_first_byte c ∷ dcid) (sized ++ (number ++ (payload ++ rest))) k
        (omega (arith, ek)) in
    let digits = length-write_packet_number pn c h in
    let two = length-encode_as 1 (c + 1 + length payload) in
    let front = take_three sized number payload rest n (omega (arith, digits, two, en)) in
    ap (λ (l : List ℕ). vint_read (take n l)) behind
    ∙ (ap vint_read front
        ∙ vint_read-encode_as 1 (c + 1 + length payload) (number ++ payload)
            (omega arith, omega (arith, fits))
            (All-append IsByte number payload (write_packet_number-IsByte pn c h) bytes))

-- On the bytes of a short packet.
read_bytes :
    (conn : Connection) (pkt_dcid : Cid) (dcid payload rest : List ℕ) (c pn : ℕ)
    → c < 4
    → c + 1 + length payload < 2 ^ 14
    → All IsByte payload
    → conn.user_scid_len ≡ length dcid
    → (conn_check_dcid conn.scid_set (record pkt_dcid { cid_buf = dcid })).0 ≡ Cid.Status.ok
    → let p =
        received
          (short_packet dcid c pn payload rest)
          (header_len dcid c + length payload)
          pkt_dcid in
      ((packet_parse_short_header conn p).0 ≡ ok)
      × ((packet_parse_short_header conn p).1.scid_set
          ≡ (conn_check_dcid conn.scid_set (record pkt_dcid { cid_buf = dcid })).2)
      × ((packet_parse_short_header conn p).2.pos ≡ header_len dcid c)
      × ((packet_parse_short_header conn p).2.last ≡ header_len dcid c + length payload)
      × ((packet_parse_short_header conn p).2.pkt_num
          ≡ decode_packet_number
              (largest_received conn.ctl_recv_record)
              (write_packet_number pn c ++ (payload ++ rest))
              (pktno_class_bytes c))
unfolding header_len received short_packet first_byte header_pktno_bytes pktno_class_bytes
read_bytes conn pkt_dcid dcid payload rest c pn h fits bytes len known =
    let two = length-encode_as 1 (c + 1 + length payload) in
    let id : take conn.user_scid_len (drop 1 packet) ≡ dcid = rw len (take-append dcid _) in
    let bits : header_pktno_bytes packet ≡ c + 1 = ap (λ (n : ℕ). n + 1) (first_bits c h).0 in
    let skip : 0 + 1 + conn.user_scid_len + 2 ≡ length (short_first_byte c ∷ dcid) + length sized =
      omega (arith, len, two) in
    let value =
      length_value dcid payload rest c pn (0 + 1 + conn.user_scid_len)
        (last - (0 + 1 + conn.user_scid_len)) h fits bytes (omega (arith, len))
        (omega (arith, len)) in
    let reach =
      checks_pass conn pkt_dcid packet last (omega (arith, len)) (first_bits c h).1 (rw id known) in
    let behind =
      drop_two (short_first_byte c ∷ dcid) sized (write_packet_number pn c ++ (payload ++ rest)) _
        skip in
    let l =
      parse_length_lem
        (record conn {
          scid_set =
              (conn_check_dcid conn.scid_set
                (record pkt_dcid { cid_buf = take conn.user_scid_len (drop 1 packet) })).2;
        })
        (received packet last
          (conn_check_dcid conn.scid_set
            (record pkt_dcid { cid_buf = take conn.user_scid_len (drop 1 packet) })).1)
        (header_pktno_bytes packet) (0 + 1 + conn.user_scid_len) last (c + 1 + length payload) value
        (omega (arith, len)) (omega (arith, bits)) in
    (
      ap (λ (r : Status × Connection × PacketIn). r.0) reach ∙ l.0,
      ap (λ (r : Status × Connection × PacketIn). r.1.scid_set) reach
          ∙ (l.1
              ∙ ap
                  (λ (b : List ℕ).
                    (conn_check_dcid conn.scid_set (record pkt_dcid { cid_buf = b })).2)
                  id),
      ap (λ (r : Status × Connection × PacketIn). r.2.pos) reach ∙ (l.2 ∙ omega (arith, bits, len)),
      ap (λ (r : Status × Connection × PacketIn). r.2.last) reach ∙ l.3,
      ap (λ (r : Status × Connection × PacketIn). r.2.pkt_num) reach
          ∙ (l.4 ∙ ap₂ (decode_packet_number (largest_received conn.ctl_recv_record)) behind bits),
    )
  where
    packet : List ℕ
    packet = short_packet dcid c pn payload rest

    sized : List ℕ
    sized = encode_as 1 (c + 1 + length payload)

    last : ℕ
    last = 1 + length dcid + 2 + (c + 1) + length payload

-- A short packet that rqc_gen_short_packet_header, the payload and rqc_update_packet_length write
-- to a buffer with room for it is read back by rqc_packet_parse_short_header: it succeeds, stops at
-- the payload, ends the packet at its end, finds the packet number, and leaves the ids as
-- rqc_conn_check_dcid leaves them. For a class below 4, less than 2 ^ 14 bytes of packet number and
-- payload, an id of the length of the receiver's that passes its check, a receiver whose largest
-- packet number and the new one are below 2 ^ 62, and a new number in the window of its class.
pub packet_parse-gen_short_packet_header :
    (conn : Connection) (pkt_dcid : Cid) (buf dcid payload : List ℕ) (c pn : ℕ)
    → c < 4
    → c + 1 + length payload < 2 ^ 14
    → All IsByte payload
    → header_len dcid c + length payload ≤ length buf
    → conn.user_scid_len ≡ length dcid
    → (conn_check_dcid conn.scid_set (record pkt_dcid { cid_buf = dcid })).0 ≡ Cid.Status.ok
    → largest_received conn.ctl_recv_record < 2 ^ 62
    → pn < 2 ^ 62
    → largest_received conn.ctl_recv_record + 1 < pn + 2 ^ (pktno_class_bytes c * 8) / 2
    → pn ≤ largest_received conn.ctl_recv_record + 1 + 2 ^ (pktno_class_bytes c * 8) / 2
    → let out = written buf dcid c pn payload in
      let p = received out.po_buf out.po_used_size pkt_dcid in
      ((packet_parse_short_header conn p).0 ≡ ok)
      × ((packet_parse_short_header conn p).1.scid_set
          ≡ (conn_check_dcid conn.scid_set (record pkt_dcid { cid_buf = dcid })).2)
      × ((packet_parse_short_header conn p).2.pos ≡ out.po_payload)
      × ((packet_parse_short_header conn p).2.last ≡ out.po_used_size)
      × ((packet_parse_short_header conn p).2.pkt_num ≡ pn)
packet_parse-gen_short_packet_header conn d buf dcid payload c pn h fits bytes room len known hl hp
      low high =
    let w = written-short_packet buf dcid payload c pn h fits room in
    let r = read_bytes conn d dcid payload w.0 c pn h fits bytes len known in
    let decoded =
      decode-write_packet_number (largest_received conn.ctl_recv_record) pn c (payload ++ w.0) h hl
        hp low high in
    let out : PacketOut = written buf dcid c pn payload in
    let same : received out.po_buf out.po_used_size d
        ≡ received (short_packet dcid c pn payload w.0) (header_len dcid c + length payload) d =
      ap₂ (λ (b : List ℕ) (l : ℕ). received b l d) w.1 w.2 in
    rw same (r.0, r.1, r.2 ∙ sym w.3, r.3 ∙ sym w.2, r.4 ∙ decoded)
