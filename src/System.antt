-- ===== src/System.antt =====
-- ffrdp.c as a whole: what holds of every connection, whatever the application, the lower layer and
-- the network do.
pub mod Rings
pub mod Frames
pub mod Lap
pub mod Shakes
pub mod Steps
pub mod Reach
mod Tests
use ffrdp.Base.{ℕ, ◌≤◌, ◌<◌, ◌≡◌, Option, some}
use ffrdp.Congestion
use ffrdp.Congestion.{Cwnd}
use ffrdp.Rtt.{Rtt}
use ffrdp.Rtt.Bounds as RttBounds
use ffrdp.Cap.{Cap}
use ffrdp.Cap.Bounds as CapBounds
use ffrdp.Snd.{Snd}
use ffrdp.Rcv.{Rcv}
use ffrdp.Conn.{Conn}
use ffrdp.Table.{Table}
use ffrdp.Hs.{Ctx}

-- The bytes written into the slot being filled stay below the frame size, which is in range.
pub record HasRoom (s : Snd) : Type 0 where
  pub mss_min : 1 ≤ s.smss
  pub mss_max : s.smss ≤ 1464
  pub room : s.cur_new_size < s.smss

-- No frame of the receive ring is longer than the room of a slot.
abbrev pub FitsSlots : Rcv → Type 0
FitsSlots r = (j : ℕ) → (r.slots j).size ≤ 1504

-- The limits of the parts of a connection: the congestion window, the retransmission timeout, the
-- limit of frames in flight, the window that the peer gives, and the two rings.
pub record Sound (cw : Cwnd) (rtt : Rtt) (k : Cap) (swnd : ℕ) (s : Snd) (r : Rcv) : Type 0 where
  pub window : Congestion.IsValid cw
  pub timeout : RttBounds.IsValid rtt
  pub limit : CapBounds.IsValid k
  pub credit : swnd ≤ 64
  pub filling : HasRoom s
  pub slots : FitsSlots r

abbrev pub IsSound : Conn → Type 0
IsSound c = Sound c.cw c.rtt c.cap c.swnd c.snd c.rcv

-- Every connection in the table is sound.
abbrev pub TableSound : Table → Type 0
TableSound t = (j : ℕ) (c : Conn) → t.table j ≡ some c → IsSound c

abbrev pub AllSound : Ctx → Type 0
AllSound x = TableSound x.table
