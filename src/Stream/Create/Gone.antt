-- ===== src/Stream/Create/Gone.antt =====
-- What leaves a closed id of the peer closed.
use rquic.Base.{
  ℕ, zero, suc, ◌+◌, ◌*◌, ◌/◌, ◌%◌, ◌≤◌, ◌<◌, ◌≡◌, ◌≢◌, refl, arith, Bool, true, false, ◌==◌,
  if◌then◌else◌, ne→==,
}
use rquic.Stream.{Conn, conn_error}
use rquic.Stream.Create.{
  Registry, stream_is_bidi, with_id, create_flow_ctl, insert_passive, internal_error,
}

-- The id lies below those that the peer has not used yet.
unfoldable pub IsUsed : ℕ → Registry → Type 0
IsUsed id reg =
    if stream_is_bidi id then id / 4 < reg.next_bidi_remote else id / 4 < reg.next_uni_remote

-- It is in no table.
pub record IsGone (id : ℕ) (reg : Registry) : Type 0 where
  pub closed : reg.streams_hash id ≡ false
  pub forgotten : reg.passive_streams_hash id ≡ false
  pub used : IsUsed id reg

-- What the limits leave alone
pub create_flow_ctl-IsGone :
    (id : ℕ) (reg : Registry) (other : ℕ) → IsGone id reg → IsGone id (create_flow_ctl reg other).1
unfolding create_flow_ctl IsUsed
create_flow_ctl-IsGone id reg other g = ground (arith, g.used)

pub conn_error-IsGone :
    (id : ℕ) (reg : Registry) (conn : Conn) → IsGone id reg → IsGone id (record reg { conn = conn })
unfolding IsUsed
conn_error-IsGone id reg conn g = record {
  closed = g.closed;
  forgotten = g.forgotten;
  used = g.used;
}

with_id-IsGone :
    (id other : ℕ) (reg : Registry)
    → id ≢ other
    → IsGone id reg
    → IsGone id (record reg { passive_streams_hash = with_id other true reg.passive_streams_hash })
unfolding with_id IsUsed
with_id-IsGone id other reg n g = record {
  closed = g.closed;
  forgotten = rw (ne→== id other n) g.forgotten;
  used = g.used;
}

one_passive-IsGone :
    (id other : ℕ) (reg : Registry) (b : Bool)
    → id ≢ other
    → IsGone id reg
    → IsGone id (
        if b
        then record reg { conn = conn_error internal_error reg.conn }
        else record reg { passive_streams_hash = with_id other true reg.passive_streams_hash })
one_passive-IsGone id other reg true n g =
    conn_error-IsGone id reg (conn_error internal_error reg.conn) g
one_passive-IsGone id other reg false n g = with_id-IsGone id other reg n g

pub insert_passive-IsGone :
    (count sid kind id : ℕ) (reg : Registry)
    → ((s : ℕ) → sid ≤ s → id ≢ 4 * s + kind)
    → IsGone id reg
    → IsGone id (insert_passive count sid kind reg)
unfolding insert_passive
insert_passive-IsGone zero sid kind id reg n g = g
insert_passive-IsGone (suc count) sid kind id reg n g =
    insert_passive-IsGone count (sid + 1) kind id _ (λ s le. n s (omega (arith, le)))
      (one_passive-IsGone id (4 * sid + kind) reg (reg.passive_streams_hash (4 * sid + kind))
        (n sid (omega arith)) g)

-- Ids from a number on of a kind are not the one that is used.
pub apart : (id other next s : ℕ) → id / 4 < next → next ≤ s → id ≢ 4 * s + other % 4
apart id other next s u le = λ e. omega (arith, u, le, e)

pub other_kind :
    (id other s : ℕ) → stream_is_bidi id ≢ stream_is_bidi other → id ≢ 4 * s + other % 4
unfolding stream_is_bidi
other_kind id other s d = λ e. d (same id other (omega (arith, e)))
  where
    same : (id other : ℕ) → id / 2 % 2 ≡ other / 2 % 2 → (id / 2 % 2 == 0) ≡ (other / 2 % 2 == 0)
    same id other e = rw e refl

-- The number of a new id of the peer, and the ids below it
pub raised_bidi :
    (id sid : ℕ) (reg : Registry)
    → reg.next_bidi_remote ≤ sid
    → IsGone id reg
    → IsGone id (record reg { next_bidi_remote = sid + 1 })
unfolding IsUsed
raised_bidi id sid reg le g = record {
  closed = g.closed;
  forgotten = g.forgotten;
  used = ground (arith, g.used);
}

pub raised_uni :
    (id sid : ℕ) (reg : Registry)
    → reg.next_uni_remote ≤ sid
    → IsGone id reg
    → IsGone id (record reg { next_uni_remote = sid + 1 })
unfolding IsUsed
raised_uni id sid reg le g = record {
  closed = g.closed;
  forgotten = g.forgotten;
  used = ground (arith, g.used);
}

pub insert_passive-next :
    (count sid kind : ℕ) (reg : Registry)
    → ((insert_passive count sid kind reg).next_bidi_remote ≡ reg.next_bidi_remote)
      × ((insert_passive count sid kind reg).next_uni_remote ≡ reg.next_uni_remote)
unfolding insert_passive
insert_passive-next zero sid kind reg = (refl, refl)
insert_passive-next (suc count) sid kind reg =
    one sid kind reg (reg.passive_streams_hash (4 * sid + kind)) _ _
      (insert_passive-next count (sid + 1) kind _)
  where
    one :
        (sid kind : ℕ) (reg : Registry) (b : Bool) (x y : ℕ)
        → (x
            ≡ (if b then record reg { conn = conn_error internal_error reg.conn } else record reg {
              passive_streams_hash = with_id (4 * sid + kind) true reg.passive_streams_hash;
            }).next_bidi_remote)
          × (y
              ≡ (if b
                  then record reg { conn = conn_error internal_error reg.conn }
                  else record reg {
                    passive_streams_hash = with_id (4 * sid + kind) true reg.passive_streams_hash;
                  }).next_uni_remote)
        → (x ≡ reg.next_bidi_remote) × (y ≡ reg.next_uni_remote)
    one sid kind reg true x y e = e
    one sid kind reg false x y e = e
