-- ===== src/Stream/Sample.antt =====
-- A stream, its connection and a clock, for the tests.
use rquic.Base.{ℕ, ◌+◌, true, false, List, [], ◌∷◌, length}
use rquic.StreamData.{StreamFrame}
use rquic.Stream.{cli_bid, SendState, RecvState, Stream, Conn, Clock}

abbrev pub byte : ℕ → ℕ
byte n = 10 + n

abbrev pub frame : List ℕ → ℕ → StreamFrame
frame bytes offset = record {
  bytes = bytes;
  data_length = length bytes;
  data_offset = offset;
  next_read_offset = 0;
  fin = false;
}

abbrev pub stream : Stream
stream = record {
  stream_id = 0;
  stream_type = cli_bid;
  stream_flow_ctl = record {
    fc_max_stream_data_can_send = 100;
    fc_max_stream_data_can_recv = 10;
    fc_stream_recv_window_size = 10;
    fc_last_window_update_time = 0;
  };
  stream_send_offset = 0;
  stream_max_recv_offset = 8;
  stream_data_in = record {
    frames_tailq = frame (10 ∷ 11 ∷ 12 ∷ 13 ∷ []) 0 ∷ frame (16 ∷ 17 ∷ []) 6 ∷ [];
    merged_offset_end = 4;
    next_read_offset = 0;
    stream_length = 0;
    stream_determined = false;
  };
  stream_state_send = SendState.ready;
  stream_state_recv = RecvState.recv;
  ready_to_read = true;
  ready_to_write = false;
  need_close = false;
  discarded = false;
  stream_close_time = 0;
  recv_rate_bytes_per_sec = 0;
}

abbrev pub conn : Conn
conn = record {
  is_client = false;
  conn_flow_ctl = record {
    fc_max_data_can_send = 100;
    fc_data_sent = 0;
    fc_max_data_can_recv = 20;
    fc_data_recved = 8;
    fc_data_read = 0;
    fc_max_streams_bidi_can_send = 4;
    fc_max_streams_bidi_can_recv = 4;
    fc_max_streams_uni_can_send = 4;
    fc_max_streams_uni_can_recv = 4;
    fc_recv_windows_size = 20;
    last_window_update_time = 0;
  };
  conn_err = 0;
  recv_bytes = 8;
  close_timer = record { timer_is_set = false; expire_time = 0 };
  init_recv_window = 10;
  conn_recv_rate = 0;
  written = [];
}

abbrev pub clock : Clock
clock = record { now = 1000; min_srtt = 50; max_srtt = 60; max_pto = 200 }
