-- ===== src/Packet/Short/Write.antt =====
-- The bytes of a short packet that is written to a buffer.
use rquic.Base.{ℕ, zero, suc, ◌+◌, ◌-◌, ◌^◌, ◌≤◌, ◌<◌, ◌≡◌, refl, sym, ap, ◌∙◌, arith}
use rquic.Base.{false, List, [], ◌∷◌, ◌++◌, length, All}
use rquic.Base.{ltb, le→ltb}
use rquic.Base.{bit_and}
use rquic.Vint.{IsByte, vint_write}
use rquic.Vint.Write.{encode_as, length-encode_as}
use rquic.Vint.Write.{vint_write-encode_as}
use rquic.Packet.{short_packet_header_size, write_packet_number, pktno_class_bytes}
use rquic.Packet.Short.{
  PacketOut, over, overwrite, short_first_byte, gen_short_packet_header, update_packet_length,
}

-- Bytes that are written over as many.
over-append :
    (bytes xs ys : List ℕ) → length xs ≡ length bytes → over bytes (xs ++ ys) ≡ bytes ++ ys
unfolding over
over-append [] [] ys h = refl
over-append [] (x ∷ xs) ys h = absurd (omega (arith, h))
over-append (b ∷ bytes) [] ys h = absurd (omega (arith, h))
over-append (b ∷ bytes) (x ∷ xs) ys h =
    ap (λ (l : List ℕ). b ∷ l) (over-append bytes xs ys (omega (arith, h)))

-- What is written behind the first bytes.
overwrite-append :
    (at k : ℕ) (bytes xs ys : List ℕ)
    → length xs + k ≡ at
    → overwrite at bytes (xs ++ ys) ≡ xs ++ overwrite k bytes ys
unfolding overwrite
overwrite-append at k bytes [] ys h =
    let e : at ≡ k = omega (arith, h) in ap (λ (n : ℕ). overwrite n bytes ys) e
overwrite-append zero k bytes (x ∷ xs) ys h = absurd (omega (arith, h))
overwrite-append (suc at) k bytes (x ∷ xs) ys h =
    ap (λ (l : List ℕ). x ∷ l) (overwrite-append at k bytes xs ys (omega (arith, h)))

-- A buffer with room for `n` bytes.
split_at :
    (n : ℕ) (xs : List ℕ)
    → n ≤ length xs
    → (ys : List ℕ) × (zs : List ℕ) × (xs ≡ ys ++ zs)
      × (length ys ≡ n)
      × (length xs ≡ n + length zs)
split_at zero xs h = ([], xs, refl, refl, omega arith)
split_at (suc n) [] h = absurd (omega (arith, h))
split_at (suc n) (x ∷ xs) h =
    let rest = split_at n xs (omega (arith, h)) in
    (x ∷ rest.0, rest.1, ap (λ (l : List ℕ). x ∷ l) rest.2, ap suc rest.3, omega (arith, rest.4))

-- A buffer with room for two fields.
split_two :
    (n m : ℕ) (xs : List ℕ)
    → n + m ≤ length xs
    → (a : List ℕ) × (b : List ℕ) × (rest : List ℕ) × (xs ≡ a ++ (b ++ rest))
      × (length a ≡ n)
      × (length b ≡ m)
      × (length xs ≡ n + m + length rest)
split_two n m xs h = first (split_at n xs (omega (arith, h)))
  where
    second :
        (a b zs rest : List ℕ)
        → xs ≡ a ++ zs
        → length a ≡ n
        → length xs ≡ n + length zs
        → zs ≡ b ++ rest
        → length b ≡ m
        → length zs ≡ m + length rest
        → (a : List ℕ) × (b : List ℕ) × (rest : List ℕ) × (xs ≡ a ++ (b ++ rest))
          × (length a ≡ n)
          × (length b ≡ m)
          × (length xs ≡ n + m + length rest)
    second a b zs rest e la l e' lb l' =
        (a, b, rest, e ∙ ap (λ (t : List ℕ). a ++ t) e', la, lb, omega (arith, l, l'))

    first :
        (ys : List ℕ) × (zs : List ℕ) × (xs ≡ ys ++ zs)
          × (length ys ≡ n)
          × (length xs ≡ n + length zs)
        → (a : List ℕ) × (b : List ℕ) × (rest : List ℕ) × (xs ≡ a ++ (b ++ rest))
          × (length a ≡ n)
          × (length b ≡ m)
          × (length xs ≡ n + m + length rest)
    first (a, zs, e, la, l) =
        let u = split_at m zs (omega (arith, h, l)) in second a u.0 zs u.1 e la l u.2 u.3 u.4

pub length-write_packet_number :
    (pn c : ℕ) → c < 4 → length (write_packet_number pn c) ≡ pktno_class_bytes c
unfolding write_packet_number pktno_class_bytes
length-write_packet_number pn zero h = refl
length-write_packet_number pn (suc zero) h = refl
length-write_packet_number pn (suc (suc zero)) h = refl
length-write_packet_number pn (suc (suc (suc zero))) h = refl
length-write_packet_number pn (suc (suc (suc (suc c)))) h = absurd (omega arith)

pub write_packet_number-IsByte : (pn c : ℕ) → c < 4 → All IsByte (write_packet_number pn c)
unfolding write_packet_number pktno_class_bytes
write_packet_number-IsByte pn zero h = ground arith
write_packet_number-IsByte pn (suc zero) h = ground arith
write_packet_number-IsByte pn (suc (suc zero)) h = ground arith
write_packet_number-IsByte pn (suc (suc (suc zero))) h = ground arith
write_packet_number-IsByte pn (suc (suc (suc (suc c)))) h = absurd (omega arith)

-- The class is read back from the first byte, which has the fixed bit.
pub first_bits :
    (c : ℕ) → c < 4 → (bit_and (short_first_byte c) 3 ≡ c) × (bit_and (short_first_byte c) 64 ≡ 64)
unfolding short_first_byte
first_bits zero h = (refl, refl)
first_bits (suc zero) h = (refl, refl)
first_bits (suc (suc zero)) h = (refl, refl)
first_bits (suc (suc (suc zero))) h = (refl, refl)
first_bits (suc (suc (suc (suc c)))) h = absurd (omega arith)

-- The header `h`, the number `n` and the payload `p` are written over as many bytes, then the
-- length `l`.
layout :
    (h l n p a b c d rest : List ℕ) (at : ℕ)
    → length a ≡ length h
    → length b ≡ 2
    → length l ≡ 2
    → length c ≡ length n
    → length d ≡ length p
    → at ≡ length h + 2
    → overwrite
        (at - 2)
        l
        (overwrite (at + length n) p (overwrite at n (over h (a ++ (b ++ (c ++ (d ++ rest)))))))
      ≡ h ++ (l ++ (n ++ (p ++ rest)))
unfolding overwrite
layout h l n p a b c d rest at ea eb el ec ed e =
    rw (over-append h a (b ++ (c ++ (d ++ rest))) ea) (
      rw (overwrite-append at 2 n h (b ++ (c ++ (d ++ rest))) (omega (arith, e))) (
        rw (overwrite-append 2 0 n b (c ++ (d ++ rest)) (omega (arith, eb))) (
          rw (over-append n c (d ++ rest) ec) (
            rw
              (overwrite-append (at + length n) (2 + length n) p h (b ++ (n ++ (d ++ rest)))
                (omega (arith, e)))
              (rw
                (overwrite-append (2 + length n) (length n) p b (n ++ (d ++ rest))
                  (omega (arith, eb)))
                (rw (overwrite-append (length n) 0 p n (d ++ rest) (omega arith)) (
                  rw (over-append p d rest ed) (
                    rw
                      (overwrite-append (at - 2) 0 l h (b ++ (n ++ (p ++ rest))) (omega (arith, e)))
                      (rw (over-append l b (n ++ (p ++ rest)) (eb ∙ sym el)) refl)))))))))

-- The bytes of a short packet.
unfoldable pub short_packet : List ℕ → ℕ → ℕ → List ℕ → List ℕ → List ℕ
short_packet dcid c pn payload rest =
    (short_first_byte c ∷ dcid)
    ++ (encode_as 1 (pktno_class_bytes c + length payload)
        ++ (write_packet_number pn c ++ (payload ++ rest)))

-- The payload is written behind the header, and the length is filled in.
pub written : List ℕ → List ℕ → ℕ → ℕ → List ℕ → PacketOut
written buf dcid c pn payload =
    let empty : PacketOut = record {
      po_buf = buf;
      po_used_size = 0;
      po_ppktno = 0;
      po_payload = 0;
    } in
    let header = (gen_short_packet_header empty dcid c pn).1 in
    update_packet_length (record header {
      po_buf = overwrite header.po_payload payload header.po_buf;
      po_used_size = header.po_payload + length payload;
    })

-- How long the packet is without its payload.
unfoldable pub header_len : List ℕ → ℕ → ℕ
header_len dcid c = 1 + length dcid + 2 + (c + 1)

written-fits :
    (buf dcid payload : List ℕ) (c pn at : ℕ)
    → header_len dcid c ≤ length buf
    → at ≡ 1 + length dcid + 2
    → written buf dcid c pn payload ≡ record {
      po_buf =
          overwrite
            (at - 2)
            (vint_write (at + length (write_packet_number pn c) + length payload - at) 1 2)
            (overwrite
              (at + length (write_packet_number pn c))
              payload
              (overwrite at (write_packet_number pn c) (over (short_first_byte c ∷ dcid) buf)));
      po_used_size = at + length (write_packet_number pn c) + length payload;
      po_ppktno = at;
      po_payload = at + length (write_packet_number pn c);
    }
unfolding written update_packet_length gen_short_packet_header short_packet_header_size
    pktno_class_bytes header_len
written-fits buf dcid payload c pn at room e =
    let t : ltb (length buf - 0) (1 + length dcid + 2 + (c + 1)) ≡ false =
      le→ltb _ _ (omega (arith, room)) in
    rw (e, t, gen_short_packet_header, written) refl

-- The writer leaves the bytes of the packet in the buffer.
pub written-short_packet :
    (buf dcid payload : List ℕ) (c pn : ℕ)
    → c < 4
    → c + 1 + length payload < 2 ^ 14
    → header_len dcid c + length payload ≤ length buf
    → (rest : List ℕ) × ((written buf dcid c pn payload).po_buf
        ≡ short_packet dcid c pn payload rest)
      × ((written buf dcid c pn payload).po_used_size ≡ header_len dcid c + length payload)
      × ((written buf dcid c pn payload).po_payload ≡ header_len dcid c)
unfolding short_packet header_len pktno_class_bytes
written-short_packet buf dcid payload c pn h fits room =
    front (split_two (1 + length dcid) 2 buf (omega (arith, room)))
  where
    Goal : Type 0
    Goal =
        (rest : List ℕ) × ((written buf dcid c pn payload).po_buf
          ≡ short_packet dcid c pn payload rest)
        × ((written buf dcid c pn payload).po_used_size ≡ header_len dcid c + length payload)
        × ((written buf dcid c pn payload).po_payload ≡ header_len dcid c)

    number : List ℕ
    number = write_packet_number pn c

    at : ℕ
    at = 1 + length dcid + 2

    digits : length number ≡ c + 1
    digits = length-write_packet_number pn c h

    len :
        vint_write (at + length number + length payload - at) 1 2
        ≡ encode_as 1 (c + 1 + length payload)
    len =
        let e : at + length number + length payload - at ≡ c + 1 + length payload =
          omega (arith, digits) in
        ap (λ (n : ℕ). vint_write n 1 2) e
        ∙ vint_write-encode_as 1 (c + 1 + length payload) (omega arith, omega (arith, fits))

    whole :
        (a b d p rest : List ℕ)
        → buf ≡ a ++ (b ++ (d ++ (p ++ rest)))
        → length a ≡ 1 + length dcid
        → length b ≡ 2
        → length d ≡ c + 1
        → length p ≡ length payload
        → Goal
    whole a b d p rest e la lb ld lp =
        let w = written-fits buf dcid payload c pn at (omega (arith, room)) refl in
        let l : List ℕ = vint_write (at + length number + length payload - at) 1 2 in
        let two : length l ≡ 2 =
          ap (λ (l : List ℕ). length l) len ∙ length-encode_as 1 (c + 1 + length payload) in
        let done =
          layout (short_first_byte c ∷ dcid) l number payload a b d p rest at (omega (arith, la)) lb
            two (ld ∙ sym digits) lp (omega arith) in
        (
          rest,
          ap (λ (o : PacketOut). o.po_buf) w
              ∙ (ap
                    (λ (t : List ℕ). overwrite (at - 2) l (
                      overwrite (at + length number) payload
                        (overwrite at number (over (short_first_byte c ∷ dcid) t))))
                    e
                  ∙ (done
                      ∙ ap
                          (λ (t : List ℕ).
                            (short_first_byte c ∷ dcid) ++ (t ++ (number ++ (payload ++ rest))))
                          len)),
          ap (λ (o : PacketOut). o.po_used_size) w ∙ omega (arith, digits),
          ap (λ (o : PacketOut). o.po_payload) w ∙ omega (arith, digits),
        )

    back :
        (a b u : List ℕ)
        → buf ≡ a ++ (b ++ u)
        → length a ≡ 1 + length dcid
        → length b ≡ 2
        → (d : List ℕ) × (p : List ℕ) × (rest : List ℕ) × (u ≡ d ++ (p ++ rest))
          × (length d ≡ c + 1)
          × (length p ≡ length payload)
          × (length u ≡ c + 1 + length payload + length rest)
        → Goal
    back a b u e la lb (d, p, rest, e', ld, lp, l) =
        whole a b d p rest (e ∙ ap (λ (t : List ℕ). a ++ (b ++ t)) e') la lb ld lp

    front :
        (a : List ℕ) × (b : List ℕ) × (rest : List ℕ) × (buf ≡ a ++ (b ++ rest))
          × (length a ≡ 1 + length dcid)
          × (length b ≡ 2)
          × (length buf ≡ 1 + length dcid + 2 + length rest)
        → Goal
    front (a, b, u, e, la, lb, l) =
        back a b u e la lb (split_two (c + 1) (length payload) u (omega (arith, l, room)))
