-- ===== src/Lib.antt =====
-- ffrdp, a reliable datagram protocol over UDP: a model of its core and proofs about it.
--
-- The program. ffrdp.c keeps a table of connections. A connection frames the application's messages
-- into a ring of slots (the send ring), sends and resends frames while the congestion window, the
-- limit of frames in flight and the pacing bucket allow, and takes ACKs that free slots and feed
-- the round-trip estimate. ffcrypto.c is the stream cipher that an application hangs into the
-- callbacks FFRDP_ENCRYPT and FFRDP_DECRYPT: a ChaCha20 keystream for each connection and
-- direction, behind a record of 8 salt bytes at its start.
--
-- The files.
-- - Base and its children: the names that all files share, Boolean tests, lists with native
--   lengths, C words (`add32` wraps, `slt32` compares as `int32_t`), signed integers, bit laws.
-- - Crypto/Block: rotl, QR, chacha20_block and chacha20_state of ffcrypto.c on lists of words.
-- - Crypto/Stream: FFC_STREAM with stream_arm, stream_next_block and stream_xor; a 64-bit load is
--   written out, lowest byte first.
-- - Crypto/Context: struct ffc_ctx, ffc_new, ffc_set_salt, ffc_crypt and ffc_drop. `begin_salt`,
--   `take_salt` and `crypt_data` are the three parts of ffc_crypt's body.
-- - Crypto/Wide, Bytes, Chunks, Record, Invariant, RoundTrip, Ends: the proofs on the cipher.
-- - Seq: seq_distance of ffrdp.c on 24-bit frame numbers.
-- - Slot, Snd: FFRDP_FRAME_NODE; the send ring (snd_insert, snd_next, snd_advance, snd_release) and
--   ffrdp_frame_message. The ring is a function from the slot's index. Snd/Frames says when a ring
--   is well formed and what it means to frame bytes in it; Snd/Fill, Framing, Release and
--   Next are proofs.
-- - Rcv: the receive ring (rcv_ring_init, rcv_head, rcv_insert, rcv_release), the data frames of
--   ffrdp_on_frame (`on_data_frame`), the delivery loop of ffrdp_recvdata_and_sendack (`deliver`) and
--   the copying loop of ffrdp_recv (`copy`). Rcv/Ring says when a ring is well formed; Rcv/Arrive,
--   Deliver and Read are about the three operations, Rcv/Order about any sequence of them.
-- - Conn: FFRDPCONN and ffrdp_conn_init.
-- - Ack: the ACK frame that ffrdp_recvdata_and_sendack makes, ffrdp_on_ack and ffrdp_apply_acks.
--   Ack/Wire is about the bytes, Ack/Keep about the frames that an ACK frees,
--   Ack/Rounds about the rounds that it takes.
-- - Table: ffrdp_conn_new, ffrdp_conn_free, ffrdp_conn_lookup and ffrdp_conn_by_addr; a connection is
--   named by its slot. Table/Slots and Table/Handles are about what a handle finds.
-- - Addr: addr_make, addr_split and addr_parse_text of utils.c, and ffrdp_addr_text; Addr/Text proofs.
-- - Cap: the limit of frames in flight that ffrdp_tick_conn adapts; Cap/Bounds proofs.
-- - Hs: the context, ffrdp_hs_send, ffrdp_hs_rx, the start in ffrdp_init, ffrdp_close, ffrdp_isdead
--   and ffrdp_flush. Hs/Complete is about a handshake of two contexts, Hs/Ignored about frames that
--   nothing waits for, Hs/Sent about what sending a frame changes.
-- - Tick: ffrdp_send_data_frame and ffrdp_tick_conn; Tick/Limits is about the sending loop.
-- - Due: ffrdp_next_due; Due/Soon proofs.
-- - Callback: ffrdp_on_frame, ffrdp_lowlevel_cb (`lowlevel_rx` for a datagram, `lowlevel_timer`) and
--   ffrdp_arm_timer. Callback/Isolation is about datagrams, Callback/Expiry about handshakes that
--   take too long.
-- - Calls: ffrdp_send and ffrdp_recv with `timeout_ms` 0; Calls/Atomic proofs.
-- - Init: ffrdp_init and ffrdp_udp_lowlevel_parse_params of lowlevel-udp.c, which reads the text that
--   a server hands over; Init/Fresh is about the contexts that it makes, Init/Rounds about the loop over
--   the options.
-- - System: the limits of a connection, over the whole program. Rings, Frames, Lap, Shakes and Steps
--   are about its parts, from the two rings up to the callback; Reach is about any sequence of
--   datagrams, timer laps and calls.
-- - Congestion: ffrdp_congestion_control.
-- - Rtt: ffrdp_rtt_sample, the timeout that ffrdp_apply_acks and ffrdp_tick_conn derive, and
--   ffrdp_idle_deadline. Rtt/Bounds and Rtt/Smooth are the proofs.
-- - Pace: ffrdp_pace_fps, ffrdp_pace_refill and the charge in ffrdp_tick_conn; Pace/Bucket proofs.
-- - Tests, and the Tests of Crypto, Snd, Rcv, Ack, Table, Addr, Cap, Hs, Tick, Due, Callback,
--   Calls, Init and System: runs of the code and the theorems at concrete inputs.
--
-- Words of w bits are native numbers with `% 2 ^ w` written out; the difference of two `int`s that
-- wraps is taken to wrap. Pointers that calls return on if NULL are not NULL, and allocation
-- succeeds. The build is the default one: FFRDP_DIAG and FFRDP_FEC_ENABLE are 0, pacing is on. The
-- counters that no decision reads are left out.
--
-- Fuel. stream_xor_loop gets one round for each byte and frame_loop one more than that: a round takes
-- a byte at least. advance_loop gets the distance from `snd_first` to `send_seq`. next_loop gets its
-- bound from the caller; the numbers up to `send_seq` are enough while they fit 24 bits, and after
-- that the loop may find a frame that it has passed (Snd/Tests has such a run).
--
-- deliver gets 65 rounds and skip_taken 64, as each round takes a slot of 64; copy gets one round for
-- each number from the read cursor to the delivery point and one more. apply_acks gets 65: while the
-- numbers fit 24 bits a round looks at a frame once, and after that the loop of the source may not
-- end, where the model leaves it after 65 rounds.
--
-- send_loop gets 65 rounds, as the congestion window is at most 64; scan gets the window; the loops
-- over the table get 16, the number of its slots. parse_options gets one round more than the text has
-- bytes, as a round takes a byte at least; it tells if its rounds were not enough.
--
-- The lower layer is a parameter: `link n` tells whether it takes the datagram of try `n`. What it
-- takes and what the application is told is listed in order.
--
-- The application's callback is a parameter: a function from its state and a payload to its state,
-- the payload as it stands in the slot then, and whether it took it.
--
-- Not modelled: threads, locks, sockets and clocks (a time is an argument), printing, the
-- diagnostics, forward error correction, the test program and the tools; of the public calls,
-- ffrdp_exit and the waiting of ffrdp_send and ffrdp_recv; of lowlevel-udp.c all but the text it is
-- given, since it is sockets and threads. A time in an option is kept as the 32-bit word of its
-- `int`. With
-- FFRDP_CAP_ADAPTIVE at 1 the older probes of the limit never start, so they are left out.
pub mod Base
pub mod Crypto
pub mod Slot
pub mod Seq
pub mod Congestion
pub mod Rtt
pub mod Pace
pub mod Snd
pub mod Rcv
pub mod Conn
pub mod Ack
pub mod Table
pub mod Addr
pub mod Cap
pub mod Hs
pub mod Tick
pub mod Due
pub mod Callback
pub mod Calls
pub mod Init
pub mod System
pub mod Tests
