-- ===== src/Lib.antt =====
-- A verification library of rquic, a QUIC transport library in C.
--
-- A connection (src/transport/rqc_conn.c) exchanges transport parameters in its handshake, cuts
-- incoming packets into frames (rqc_packet_parser.c, rqc_frame_parser.c), records the packet numbers
-- it received (rqc_recv_record.c) to acknowledge them, and sends from its streams under a congestion
-- controller (src/congestion_control). The library models the parts that hold the protocol's own
-- arithmetic and data structures:
--
--   Vint             src/common/utils/vint: rqc_vint_read, rqc_vint_write, rqc_put_varint, and in
--                    Vint/Discrete the parser for integers that arrive in pieces
--   TransportParams  src/transport/rqc_transport_params.c: length, encoder, decoder
--   RecvRecord       src/transport/rqc_recv_record.c: rqc_recv_record_add, _del, _largest, _destroy on
--                    the ranges of received packet numbers
--   RingArray        src/common/utils/ringarray/rqc_ring_array.c: all operations, and rqc_pow2_upper
--                    of src/common/rqc_common.h
--   Packet           src/transport/rqc_packet_parser.c: in Packet/Number the truncated packet numbers,
--                    in Packet/Short the short header, written to a buffer and read by a connection
--   Cid              src/transport/rqc_cid.c: the ids of one path; in Cid/Sets those of all paths, and
--                    rqc_conn_check_dcid of rqc_conn.c
--   StreamData       src/transport/rqc_frame.c: rqc_insert_stream_frame, the STREAM frames that wait; in
--                    StreamData/Read the loops of rqc_stream_recv and rqc_stream_peek over them
--   Stream           src/transport/rqc_stream.c and rqc_frame.c: in Stream/Arrival a STREAM frame of a
--                    stream, in Stream/Recv reading and the windows that it opens, in Stream/Create the
--                    streams that the peer opens; Stream/Delivery puts arrival and reading together
--   Recovery         src/transport/rqc_send_ctl.c: the round trip time and the bytes in flight
--   PriorityQ        src/common/rqc_priority_q.h: the binary heap, for any order of the keys
--   WindowFilter     src/congestion_control/rqc_window_filter.c: the running maximum and minimum
--   Pacing           src/transport/rqc_pacing.c and the timer of rqc_timer.h: when a packet may go
--   Frame            src/transport/rqc_frame_parser.c: in Frame/Control the frames of flow control, of
--                    ends of streams and connections, of paths; in Frame/Ack the ACK frame
--
-- A stream takes its frames by StreamData and is read by the loop of StreamData/Read; its window
-- updates and its end use the timer of Pacing.
--
-- Base holds what they share. The ACK frame is written from a receive record; frames, transport
-- parameters and the length of a packet are written and read with the integers of Vint. The reader
-- of a short header looks its id up in Cid and completes the packet number from the largest one of
-- the receive record.
--
-- How C is rendered. A pointer with its end is the list of the bytes between them; what is written
-- through a pointer is the list of the bytes written. A uint64_t is a natural number, with the
-- wrap-around written out where the code can reach it. A call that returns an error code returns an
-- Option or a result type; undefined behaviour is a value of its own. An allocated array carries the
-- number of bytes that were asked for, with the wrap-around of the product, and theorems on growing
-- arrays say that these bytes hold it.
--
-- Fuel. The decoding loop of the transport parameters gets one unit per input byte: every round
-- takes at least two bytes. rqc_pow2_upper gets 63 rounds, the most that a number of 64 bits needs.
-- The loops of the priority queue get a round per index upwards, since each round lowers the index,
-- and a round per element downwards, since each raises it while there are at most 2 ^ 31 elements.
--
-- Not modelled: sockets, logging, memory allocation failures, the generic containers, STREAM and
-- HANDSHAKE frames as bytes, long packet headers, the other timers, the making of connection ids
-- (a callback and random bytes), the sending side of streams with the send queue, the acknowledgement
-- of sent packets, the backoff of the probe timeout (a power of doubles), and the state machines of
-- connections and of congestion control, which act through callbacks on shared packet objects.
pub mod Base
pub mod Vint
pub mod TransportParams
pub mod RecvRecord
pub mod RingArray
pub mod Frame
pub mod Cid
pub mod Packet
pub mod StreamData
pub mod PriorityQ
pub mod WindowFilter
pub mod Pacing
pub mod Stream
pub mod Recovery
