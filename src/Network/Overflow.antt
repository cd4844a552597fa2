-- ===== src/Network/Overflow.antt =====
-- Which frames eth_recv has room for.
use native.Mathlib.Decide.{dec_lt}
use tnsparser.Base.{gt→leb, ℕ, ◌<◌, ◌≡◌, ◌↔◌, refl, none, some, List, arith, length}
use tnsparser.Sockets.{Os, recv_via_dev}
use tnsparser.Network.{Packet, recv_into, eth_recv}
use tnsparser.Network.Total.{eth_recv-Returns}
use tnsparser.Network.Ethernet.{eth_handle, receive, eth_recv_from, try_recv_len}

recv_into-too_long : (buf bytes : List ℕ) → length buf < length bytes → recv_into buf bytes ≡ none
unfolding recv_into
recv_into-too_long buf bytes h = rw (gt→leb (length bytes) (length buf) h) refl

eth_recv-too_long :
    (ip port : ℕ) (bytes : List ℕ) (pkt : Packet)
    → length pkt.buf < length bytes
    → eth_recv ip port (some bytes) pkt ≡ none
unfolding eth_recv
eth_recv-too_long ip port bytes pkt h = rw (recv_into-too_long pkt.buf bytes h) refl

module _ (os : Os) (ip port fd : ℕ) (pkt : Packet) (w w' : os.World) (bytes : List ℕ)
    (room : length pkt.buf ≡ 1500) (got : os.recvfrom fd try_recv_len w ≡ (some bytes, w')) where
  -- With the 1500 bytes of a packet's buffer, a call of recv on an open handle writes outside the
  -- buffer exactly when the frame that recvfrom delivers, for the 1518 bytes that it is asked for, is
  -- longer than the buffer; every other frame is received or turned down, and nothing outside the
  -- buffer is touched.
  pub eth_recv_from-faults :
      (eth_recv_from os ip port (eth_handle fd) pkt w ≡ none) ↔ (1500 < length bytes)
  unfolding eth_recv_from receive recv_via_dev
  eth_recv_from-faults = rw got (elim (dec_lt 1500 (length bytes)) [
    | yes long ↦
        ((λ e. long), (λ h. rw (eth_recv-too_long ip port bytes pkt (omega (arith, room))) refl))
    | no short ↦
        let (r, e, received) =
          eth_recv-Returns ip port bytes pkt (omega (arith, room)) (omega (arith, room)) in
        ((λ f. absurd (cc (rw e at f))), (λ h. absurd (short h)))
  ])
