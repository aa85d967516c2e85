-- ===== src/System/Tests.antt =====
-- ffrdp.c as a whole: the theorem at a concrete run.
use ffrdp.Base.{ℕ, ◌≡◌, refl, Bool, true, List, [], ◌∷◌, ◌++◌, some}
use ffrdp.Base.Int.{pos}
use ffrdp.Addr
use ffrdp.Addr.{colon, parse_text, last_colon, ipv4_parse, finish, all_digits}
use ffrdp.Slot.{type_handshake}
use ffrdp.Hs.{Ctx, syn, ack, flush_conn, close_conn}
use ffrdp.Callback.{lowlevel_rx, lowlevel_timer}
use ffrdp.Calls.{send_now, recv_now}
use ffrdp.Init.{defaults, scheme, cut_at, parse_options, make_ctx, main_conn}
use ffrdp.Init.{init, init_after, init_with, init_server, server_params, udp_params}
use ffrdp.System.{AllSound}
use ffrdp.System.Reach.{started, datagram, timer, sent, received, flushed, closed, Reach-AllSound}

abbrev free_link : ℕ → Bool
free_link n = true

abbrev plain : ℕ → List ℕ → List ℕ
plain n p = p

-- What the application does with a payload: it takes it.
abbrev take_all : List ℕ → List ℕ → List ℕ × (List ℕ × Bool)
take_all s p = (s ++ p, ([], true))

-- "ffrdps://0.0.0.0:9".
abbrev server_text : List ℕ
server_text = scheme b's' ++ (b'0' ∷ b'.' ∷ b'0' ∷ b'.' ∷ b'0' ∷ b'.' ∷ b'0' ∷ colon ∷ b'9' ∷ [])

abbrev server : Ctx
server = make_ctx defaults true (main_conn defaults 7)

server_value : init free_link server_text 7 ≡ some server
unfolding init init_after init_with init_server cut_at parse_options server_params udp_params
    parse_text last_colon ipv4_parse finish all_digits Addr.atoi
server_value = refl

-- A SYN, a message to the new connection, its ACK, a lap of the timer, a read and a close.
abbrev greeted : Ctx
greeted = (lowlevel_rx free_link server 55 (type_handshake ∷ syn ∷ []) 10).0

abbrev answered : Ctx
answered =
    (send_now plain (lowlevel_rx free_link greeted 55 (type_handshake ∷ ack ∷ []) 12).0 (pos 1)
      (1 ∷ 2 ∷ []) 14).0

abbrev lapped : Ctx
lapped = (lowlevel_timer free_link plain take_all answered [] 20).0.0

Reach-AllSound_example :
    AllSound
      (close_conn free_link (recv_now (flush_conn lapped (pos 1)) (pos 1) 9 30).0 (pos 1) 40).0
Reach-AllSound_example =
    Reach-AllSound free_link take_all
      (close_conn free_link (recv_now (flush_conn lapped (pos 1)) (pos 1) 9 30).0 (pos 1) 40).0
      (closed (pos 1) 40 (
        received (pos 1) 9 30 (
          flushed (pos 1) (
            timer plain [] 20 (
              sent plain (pos 1) (1 ∷ 2 ∷ []) 14 (
                datagram 55 (type_handshake ∷ ack ∷ []) 12 (
                  datagram 55 (type_handshake ∷ syn ∷ []) 10
                    (started server_text 7 server_value))))))))
