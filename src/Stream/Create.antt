-- ===== src/Stream/Create.antt =====
-- src/transport/rqc_stream.c: the streams that the peer opens, and the end of a stream. The two hash
-- tables are sets of ids: a table refuses an id that it has. `next_bidi_remote` and `next_uni_remote`
-- are max_stream_id_bidi_remote and max_stream_id_uni_remote plus 1, since these start at -1.
pub mod Gone
pub mod Steps
pub mod Closed
mod Tests
use rquic.Base.{
  ℕ, zero, suc, ◌+◌, ◌-◌, ◌*◌, ◌/◌, ◌%◌, ◌^◌, Bool, true, false, ◌&&◌, not, List, [], ◌∷◌, ltb, leb,
  ◌==◌, if◌then◌else◌,
}
use rquic.Stream.{ConnFlowCtl, max_streams, Conn, conn_error}

-- Of rqc_connection_s. `can_create` is conn_state < RQC_CONN_STATE_CLOSING, the two numbers are of
-- `local_settings`.
pub record Registry : Type 0 where
  pub conn : Conn
  pub can_create : Bool
  pub streams_hash : ℕ → Bool
  pub passive_streams_hash : ℕ → Bool
  pub next_bidi_remote : ℕ
  pub next_uni_remote : ℕ
  pub max_streams_bidi : ℕ
  pub max_streams_uni : ℕ

-- TRA_INTERNAL_ERROR and TRA_STREAM_LIMIT_ERROR
abbrev pub internal_error : ℕ
internal_error = 1

abbrev pub stream_limit_error : ℕ
stream_limit_error = 4

-- rqc_stream_is_bidi
pub stream_is_bidi : ℕ → Bool
stream_is_bidi stream_id = stream_id / 2 % 2 == 0

-- A set with an id put in or taken out
pub with_id : ℕ → Bool → (ℕ → Bool) → ℕ → Bool
with_id id b table i = if i == id then b else table i

-- The receiving part of rqc_stream_do_create_flow_ctl; false is -RQC_EPROTO.
pub create_flow_ctl : Registry → ℕ → Bool × Registry
unfolding stream_is_bidi
create_flow_ctl reg stream_id =
    let conn = reg.conn in
    let fc = conn.conn_flow_ctl in
    let bidi = (fc.fc_max_streams_bidi_can_recv + reg.max_streams_bidi) % 2 ^ 64 in
    let uni = (fc.fc_max_streams_uni_can_recv + reg.max_streams_uni) % 2 ^ 64 in
    if stream_is_bidi stream_id
    then (if leb ((4 * fc.fc_max_streams_bidi_can_recv + stream_id % 4) % 2 ^ 64) stream_id
        then (false, record reg { conn = conn_error stream_limit_error conn })
        else if leb (fc.fc_max_streams_bidi_can_recv / 2) (stream_id / 4)
        then (
          true,
          record reg {
            conn = record conn {
              conn_flow_ctl = record fc { fc_max_streams_bidi_can_recv = bidi };
              written = max_streams bidi true ∷ conn.written;
            };
          },
        )
        else (true, reg))
    else (if leb ((4 * fc.fc_max_streams_uni_can_recv + stream_id % 4) % 2 ^ 64) stream_id
        then (false, record reg { conn = conn_error stream_limit_error conn })
        else if leb (fc.fc_max_streams_uni_can_recv / 2) (stream_id / 4)
        then (
          true,
          record reg {
            conn = record conn {
              conn_flow_ctl = record fc { fc_max_streams_uni_can_recv = uni };
              written = max_streams uni false ∷ conn.written;
            };
          },
        )
        else (true, reg))

-- The loop of rqc_insert_passive_stream_hash: `count` ids of the kind from the number `sid` on
pub insert_passive : ℕ → ℕ → ℕ → Registry → Registry
insert_passive zero sid kind reg = reg
insert_passive (suc count) sid kind reg =
    let id = 4 * sid + kind in
    insert_passive count (sid + 1) kind (
      if reg.passive_streams_hash id
      then record reg { conn = conn_error internal_error reg.conn }
      else record reg { passive_streams_hash = with_id id true reg.passive_streams_hash })

-- The ids up to a new one are entered, or the id is looked up; false: the stream is closed already.
pub enter_id : Registry → ℕ → Bool × Registry
unfolding insert_passive
enter_id reg stream_id =
    let sid = stream_id / 4 in
    let bidi =
      insert_passive (sid + 1 - reg.next_bidi_remote) reg.next_bidi_remote (stream_id % 4) reg in
    let uni =
      insert_passive (sid + 1 - reg.next_uni_remote) reg.next_uni_remote (stream_id % 4) reg in
    if stream_is_bidi stream_id && leb reg.next_bidi_remote sid
    then (true, record bidi { next_bidi_remote = sid + 1 })
    else if not (stream_is_bidi stream_id) && leb reg.next_uni_remote sid
    then (true, record uni { next_uni_remote = sid + 1 })
    else (reg.passive_streams_hash stream_id, reg)

-- rqc_destroy_stream: the two tables
pub destroy_stream : Registry → ℕ → Registry
destroy_stream reg stream_id = record reg {
  streams_hash = with_id stream_id false reg.streams_hash;
  passive_streams_hash = with_id stream_id false reg.passive_streams_hash;
}

-- rqc_create_stream_with_conn for a stream of the peer; false is NULL.
pub create_stream_with_conn : Registry → ℕ → Bool × Registry
unfolding create_flow_ctl destroy_stream
create_stream_with_conn reg stream_id =
    let checked = create_flow_ctl reg stream_id in
    let r = checked.1 in
    if not reg.can_create
    then (false, reg)
    else if not checked.0
    then checked
    else if r.streams_hash stream_id
    then (false, destroy_stream r stream_id)
    else (true, record r { streams_hash = with_id stream_id true r.streams_hash })

-- rqc_passive_create_stream
pub passive_create_stream : Registry → ℕ → Bool × Registry
unfolding create_stream_with_conn enter_id
passive_create_stream reg stream_id =
    let checked = create_flow_ctl reg stream_id in
    let entered = enter_id checked.1 stream_id in
    let created = create_stream_with_conn entered.1 stream_id in
    if not checked.0
    then checked
    else if not entered.0
    then entered
    else if created.0
    then created
    else (false, record created.1 { conn = conn_error internal_error created.1.conn })

-- Whether the peer opens the streams of that id: those of the client are even.
pub is_peers : Bool → ℕ → Bool
is_peers is_client stream_id = if is_client then stream_id % 2 == 1 else stream_id % 2 == 0

-- The stream that a frame of the peer is for: it is looked up, then created if it is the peer's.
pub find_or_create : Registry → ℕ → Bool × Registry
unfolding passive_create_stream is_peers
find_or_create reg stream_id =
    if reg.streams_hash stream_id
    then (true, reg)
    else if is_peers reg.conn.is_client stream_id
    then passive_create_stream reg stream_id
    else (false, reg)
