-- ===== src/Stream.antt =====
-- src/transport/rqc_stream.h, rqc_stream.c and rqc_conn.h: a stream and the connection's part in its
-- flow control. Times come as an argument, the clock of a call; a frame that the code queues to be
-- sent is put to the list `written`, newest first.
pub mod Close
pub mod Sample
pub mod Recv
pub mod Arrival
pub mod Delivery
pub mod Create
use rquic.Base.{
  ℕ, zero, suc, ◌+◌, ◌*◌, ◌/◌, ◌%◌, ◌^◌, Bool, true, false, List, [], ◌∷◌, ◌==◌, if◌then◌else◌,
}
use rquic.Pacing.{Timer}
use rquic.StreamData.{StreamDataIn}

-- rqc_stream_type_t
pub data StreamType : Type 0 where
  cli_bid svr_bid cli_uni svr_uni : StreamType

-- rqc_get_stream_type
pub get_stream_type : ℕ → StreamType
get_stream_type stream_id =
    let kind = stream_id % 4 in
    if kind == 0
    then cli_bid
    else if kind == 1
    then svr_bid
    else if kind == 2
    then cli_uni
    else svr_uni

-- rqc_send_stream_state_t and rqc_recv_stream_state_t, with their numbers
pub data SendState : Type 0 where
  ready send data_sent data_recvd reset_sent reset_recvd : SendState

abbrev pub send_rank : SendState → ℕ
send_rank SendState.ready = 0
send_rank SendState.send = 1
send_rank SendState.data_sent = 2
send_rank SendState.data_recvd = 3
send_rank SendState.reset_sent = 4
send_rank SendState.reset_recvd = 5

pub data RecvState : Type 0 where
  recv size_known data_recvd data_read reset_recvd reset_read : RecvState

abbrev pub recv_rank : RecvState → ℕ
recv_rank RecvState.recv = 0
recv_rank RecvState.size_known = 1
recv_rank RecvState.data_recvd = 2
recv_rank RecvState.data_read = 3
recv_rank RecvState.reset_recvd = 4
recv_rank RecvState.reset_read = 5

-- rqc_stream_flow_ctl_t
pub record StreamFlowCtl : Type 0 where
  pub fc_max_stream_data_can_send : ℕ
  pub fc_max_stream_data_can_recv : ℕ
  pub fc_stream_recv_window_size : ℕ
  pub fc_last_window_update_time : ℕ

-- Of rqc_stream_s, without the statistics; four bits of `stream_flag` are fields of their own.
pub record Stream : Type 0 where
  pub stream_id : ℕ
  pub stream_type : StreamType
  pub stream_flow_ctl : StreamFlowCtl
  pub stream_send_offset : ℕ
  pub stream_max_recv_offset : ℕ
  pub stream_data_in : StreamDataIn
  pub stream_state_send : SendState
  pub stream_state_recv : RecvState
  pub ready_to_read : Bool
  pub ready_to_write : Bool
  pub need_close : Bool
  pub discarded : Bool
  pub stream_close_time : ℕ
  pub recv_rate_bytes_per_sec : ℕ

-- rqc_conn_flow_ctl_t
pub record ConnFlowCtl : Type 0 where
  pub fc_max_data_can_send : ℕ
  pub fc_data_sent : ℕ
  pub fc_max_data_can_recv : ℕ
  pub fc_data_recved : ℕ
  pub fc_data_read : ℕ
  pub fc_max_streams_bidi_can_send : ℕ
  pub fc_max_streams_bidi_can_recv : ℕ
  pub fc_max_streams_uni_can_send : ℕ
  pub fc_max_streams_uni_can_recv : ℕ
  pub fc_recv_windows_size : ℕ
  pub last_window_update_time : ℕ

-- The frames that the functions of rqc_packet_out.c are asked to write.
pub data Written : Type 0 where
  max_data : ℕ → Written
  max_stream_data : ℕ → ℕ → Written
  max_streams : ℕ → Bool → Written

-- Of rqc_connection_s: what the streams use. `close_timer` is RQC_TIMER_STREAM_CLOSE.
pub record Conn : Type 0 where
  pub is_client : Bool
  pub conn_flow_ctl : ConnFlowCtl
  pub conn_err : ℕ
  pub recv_bytes : ℕ
  pub close_timer : Timer
  pub init_recv_window : ℕ
  pub conn_recv_rate : ℕ
  pub written : List Written

-- What a call asks of the clock and of the path.
pub record Clock : Type 0 where
  pub now : ℕ
  pub min_srtt : ℕ
  pub max_srtt : ℕ
  pub max_pto : ℕ

-- RQC_MIN_RECV_WINDOW and RQC_MAX_RECV_WINDOW
abbrev pub min_recv_window : ℕ
min_recv_window = 63000

abbrev pub max_recv_window : ℕ
max_recv_window = 4 * 1024 * 1024

-- TRA_FLOW_CONTROL_ERROR and TRA_FINAL_SIZE_ERROR
abbrev pub flow_control_error : ℕ
flow_control_error = 3

abbrev pub final_size_error : ℕ
final_size_error = 6

-- RQC_CONN_ERR: the first error is kept.
pub conn_error : ℕ → Conn → Conn
conn_error err conn = if conn.conn_err == 0 then record conn { conn_err = err } else conn
