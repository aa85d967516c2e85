-- ===== src/Calls.antt =====
-- ffrdp.c, ffrdp_send and ffrdp_recv with `timeout_ms` 0, that is without the waiting. A send that
-- is taken also has the lower layer run the timer at once, which is not in the result.
pub mod Atomic
mod Tests
use ffrdp.Base.{
  ℕ, zero, suc, ◌+◌, ◌-◌, ◌*◌, ◌/◌, ◌%◌, ◌^◌, Bool, true, false, not, ◌&&◌, ◌||◌, List, [], ◌∷◌,
}
use ffrdp.Base.{Option, none, some, length, ltb, leb, ◌==◌, if◌then◌else◌, add32}
use ffrdp.Base.Int.{ℤ, pos, negsuc}
use ffrdp.Snd.{Snd, frame_message}
use ffrdp.Rcv.{Rcv, copy}
use ffrdp.Conn.{Conn}
use ffrdp.Congestion.{max_cwnd_size}
use ffrdp.Ack.{max_waitsnd}
use ffrdp.Table.{conn_lookup, maxconn_limit}
use ffrdp.Hs.{Ctx, code_of, put_conn, isdead_locked}

-- FFRDP_CLOSED, FFRDP_EINVAL and FFRDP_CONN_INVALID, FFRDP_EAGAIN.
abbrev pub closed : ℤ
closed = pos 0

abbrev pub einval : ℤ
einval = negsuc 0

abbrev pub eagain : ℤ
eagain = negsuc 1

-- FFRDP_UNSENT_MAX
abbrev pub unsent_max : ℕ
unsent_max = 24

-- The state of the connection lets it send; otherwise what ffrdp_send returns.
unfoldable pub send_gate : Ctx → Conn → Option ℤ
send_gate x c =
    if x.closing || (x.is_server && not c.connected)
    then some closed
    else if x.hs_enable && code_of c.hs_state == 5
    then some closed
    else if x.hs_enable && (not x.is_server && not (code_of c.hs_state == 3))
    then some eagain
    else none

-- The message fits the budget of frames that were not sent, and the frames that wait for their ACK.
unfoldable pub has_room : Snd → ℕ → Bool
has_room s len =
    let need = (len + s.smss - 1) / s.smss in
    (s.tx_unsent == 0 || leb (add32 s.tx_unsent need) unsent_max)
    && (ltb s.wait_snd max_cwnd_size && leb (add32 need s.wait_snd) max_waitsnd)

module _ (encrypt : ℕ → List ℕ → List ℕ) where
  -- What ffrdp_send does with the connection `c` in slot `i`.
  unfoldable pub send_try : Ctx → ℕ → Conn → List ℕ → ℕ → Ctx × ℤ
  send_try x i c buf now =
      let (s1, took) = frame_message encrypt c.snd buf now in
      if has_room c.snd (length buf) && took
      then (put_conn x i (record c { snd = s1 }), pos (length buf))
      else (x, eagain)

  abbrev pub send_by : Ctx → ℕ → Conn → List ℕ → ℕ → Option ℤ → Ctx × ℤ
  send_by x i c buf now none = send_try x i c buf now
  send_by x i c buf now (some rc) = (x, rc)

  abbrev pub send_on : Ctx → List ℕ → ℕ → Option Conn → Ctx × ℤ
  send_on x buf now none = (x, einval)
  send_on x buf now (some c) = send_by x (c.handle % maxconn_limit) c buf now (send_gate x c)

  unfoldable pub send_now : Ctx → ℤ → List ℕ → ℕ → Ctx × ℤ
  send_now x conn buf now =
      if ltb (length buf) 1 then (x, einval) else send_on x buf now (conn_lookup x.table conn)

-- What ffrdp_recv does with the connection `c`, with room for `len` bytes: the connection, the bytes
-- and the result.
unfoldable pub recv_conn : Ctx → Conn → ℕ → ℕ → Conn × (List ℕ × ℤ)
recv_conn x c len now =
    let (r1, (out, freed)) = copy c.rcv len in
    let c1 = record c { rcv = r1 } in
    let opened = record c { rcv = record r1 { rx_wnd_zero = false }; ack_due = true } in
    if ltb 0 (length out)
    then (if freed && r1.rx_wnd_zero then opened else c1, (out, pos (length out)))
    else if isdead_locked x c1 now
    then (c1, ([], closed))
    else (c1, ([], eagain))

abbrev pub recv_on : Ctx → ℕ → ℕ → Option Conn → Ctx × (List ℕ × ℤ)
recv_on x len now none = (x, ([], einval))
recv_on x len now (some c) =
    let (c1, got) = recv_conn x c len now in (put_conn x (c.handle % maxconn_limit) c1, got)

unfoldable pub recv_now : Ctx → ℤ → ℕ → ℕ → Ctx × (List ℕ × ℤ)
recv_now x conn len now =
    if ltb len 1 then (x, ([], einval)) else recv_on x len now (conn_lookup x.table conn)
