-- ===== src/Network/Frames.antt =====
-- eth_recv on the frame of a segment: what a sender wrote comes out again.
use tnsparser.Base.{
  get_elem?-behind, drop-behind, take-append, ℕ, suc, ◌+◌, ◌-◌, ◌*◌, ◌/◌, ◌%◌, ◌<◌, ◌≤◌, ◌≡◌, refl,
  ap, ◌∙◌, some, List, ◌++◌, append_assoc, arith, length, get_elem?, drop, take, ◌==◌, ◌&&◌, le→leb,
  Bool-cases, inl, inr,
}
use tnsparser.Wire.{load_ushort, load_ntohs, ntohs}
use tnsparser.Wire.Head.{ntohs-network}
use tnsparser.Session.{Direction, request, response}
use tnsparser.Network.{
  Packet, result_push, load_uint, ip_head, tcp_head, match_target, packet_key, tcp_len, ip_recv,
  proc_incoming_pack, recv_set_pack_info, recv_into, pushed, eth_recv,
}
use tnsparser.Network.Segment.{
  Segment, Fits, tot_len, net_head, transport_head, frame, segment_key, accepted, filtered,
}

ntohs_twice : (n : ℕ) → n < 65536 → ntohs (ntohs n) ≡ n
unfolding ntohs
ntohs_twice n h = omega arith

from_memory :
    (n : ℕ)
    → n < 4294967296
    → n % 256 + 256 * (n / 256 % 256) + 65536 * (n / 65536 % 256 + 256 * (n / 16777216 % 256)) ≡ n
from_memory n h = omega arith

module _ (g : Segment) (fits : Fits g) (rest : List ℕ) where
  behind_transport : List ℕ
  behind_transport = g.tcp_options ++ (g.payload ++ rest)

  behind_net : List ℕ
  behind_net = g.ip_options ++ (transport_head g ++ behind_transport)

  at_net :
      (i k : ℕ) → i ≡ 12 + k → get_elem? (frame g rest) i ≡ get_elem? (net_head g ++ behind_net) k
  unfolding behind_net behind_transport
  at_net i k e = get_elem?-behind g.addresses _ i k (omega (arith, e, fits.addresses))

  at_transport :
      (i k : ℕ)
      → i ≡ 14 + g.ihl * 4 + k
      → get_elem? (frame g rest) i ≡ get_elem? (transport_head g ++ behind_transport) k
  unfolding behind_net behind_transport
  at_transport i k e =
      at_net i (i - 12) (omega (arith, e, fits.ihl))
      ∙ (get_elem?-behind (net_head g) behind_net (i - 12) (i - 34) (omega (arith, e, fits.ihl))
          ∙ get_elem?-behind g.ip_options _ (i - 34) k (omega (arith, e, fits.ihl)))

  read_type : load_ntohs (frame g rest) 12 ≡ some 2048
  unfolding load_ntohs load_ushort ntohs
  read_type = rw (at_net 12 0 (omega arith), at_net 13 1 (omega arith)) refl

  read_tot_len : load_ntohs (frame g rest) 16 ≡ some (tot_len g)
  unfolding load_ntohs load_ushort
  read_tot_len =
      rw (at_net 16 4 (omega arith), at_net 17 5 (omega arith))
        (ap some (ntohs-network (tot_len g) fits.tot_len))

  read_ihl : ip_head (frame g rest) ≡ some (g.ihl * 4)
  unfolding ip_head
  read_ihl = rw (at_net 14 2 (omega arith)) (ap some (omega (arith, fits.ihl_bound)))

  read_saddr : load_uint (frame g rest) 26 ≡ some g.saddr
  unfolding load_uint load_ushort
  read_saddr =
      rw
        (
          at_net 26 14 (omega arith),
          at_net 27 15 (omega arith),
          at_net 28 16 (omega arith),
          at_net 29 17 (omega arith),
        )
        (ap some (from_memory g.saddr fits.saddr))

  read_daddr : load_uint (frame g rest) 30 ≡ some g.daddr
  unfolding load_uint load_ushort
  read_daddr =
      rw
        (
          at_net 30 18 (omega arith),
          at_net 31 19 (omega arith),
          at_net 32 20 (omega arith),
          at_net 33 21 (omega arith),
        )
        (ap some (from_memory g.daddr fits.daddr))

  read_doff : tcp_head (frame g rest) (14 + g.ihl * 4) ≡ some (g.doff * 4)
  unfolding tcp_head
  read_doff =
      rw (at_transport (14 + g.ihl * 4 + 12) 12 refl) (ap some (omega (arith, fits.doff_bound)))

  read_source : load_ushort (frame g rest) (14 + g.ihl * 4) ≡ some (ntohs g.source)
  unfolding load_ushort ntohs
  read_source =
      rw
        (
          at_transport (14 + g.ihl * 4) 0 (omega arith),
          at_transport (suc (14 + g.ihl * 4)) 1 (omega arith),
        )
        (ap some (omega (arith, fits.source)))

  read_dest : load_ushort (frame g rest) (14 + g.ihl * 4 + 2) ≡ some (ntohs g.dest)
  unfolding load_ushort ntohs
  read_dest =
      rw
        (
          at_transport (14 + g.ihl * 4 + 2) 2 (omega arith),
          at_transport (suc (14 + g.ihl * 4 + 2)) 3 (omega arith),
        )
        (ap some (omega (arith, fits.dest)))

  packet_key-frame : packet_key (frame g rest) ≡ some (segment_key g)
  unfolding packet_key
  packet_key-frame = rw (read_ihl, read_saddr, read_daddr, read_source, read_dest) refl

  tcp_len-frame : tcp_len (frame g rest) ≡ some (length g.payload)
  unfolding tcp_len
  tcp_len-frame =
      rw (read_ihl, read_tot_len, read_doff)
        (ap some (omega (arith, fits.tot_len, fits.ihl_bound, fits.doff_bound)))

  ip_recv-frame :
      (ip port : ℕ)
      → ip_recv ip port (frame g rest)
        ≡ some (match_target ip port (segment_key g) (length g.payload))
  unfolding ip_recv
  ip_recv-frame ip port =
      let four : (64 + g.ihl) / 16 % 16 ≡ 4 = omega (arith, fits.ihl_bound) in
      rw
        (
          at_net 14 2 (omega arith),
          at_net 23 11 (omega arith),
          four,
          tcp_len-frame,
          packet_key-frame,
        )
        refl

  proc_incoming_pack-frame :
      (ip port : ℕ)
      → proc_incoming_pack ip port (frame g rest)
        ≡ some (match_target ip port (segment_key g) (length g.payload))
  unfolding proc_incoming_pack
  proc_incoming_pack-frame ip port = rw (read_type, ip_recv-frame ip port) refl

  recv_set_pack_info-frame :
      (pkt : Packet) (dir : Direction)
      → recv_set_pack_info (record pkt { buf = frame g rest }) (length g.payload) dir result_push
        ≡ some (accepted g (record pkt { buf = frame g rest }) dir)
  unfolding recv_set_pack_info accepted
  recv_set_pack_info-frame pkt dir = rw (read_ihl, read_doff, packet_key-frame) refl

  pushed-frame :
      (ip port : ℕ) (pkt : Packet)
      → pushed
          (record pkt { buf = frame g rest })
          (match_target ip port (segment_key g) (length g.payload))
        ≡ some (filtered ip port g (record pkt { buf = frame g rest }))
  unfolding pushed match_target filtered
  pushed-frame ip port pkt =
      rw (ntohs_twice g.source fits.source, ntohs_twice g.dest fits.dest)
        (elim (Bool-cases ((g.saddr == ip) && (g.source == port))) [
          | inl from ↦ rw (from, recv_set_pack_info-frame pkt response) refl
          | inr other ↦ elim (Bool-cases ((g.daddr == ip) && (g.dest == port))) [
            | inl to ↦ rw (other, to, recv_set_pack_info-frame pkt request) refl
            | inr strange ↦ rw (other, strange) refl
          ]
        ])

pub frame-append : (g : Segment) (v w : List ℕ) → frame g v ++ w ≡ frame g (v ++ w)
frame-append g v w = simp append_assoc

pub drop-frame :
    (g : Segment) (rest : List ℕ)
    → Fits g
    → drop (14 + g.ihl * 4 + g.doff * 4) (frame g rest) ≡ g.payload ++ rest
drop-frame g rest fits =
    let n = 14 + g.ihl * 4 + g.doff * 4 in
    drop-behind g.addresses _ n (n - 12) (omega (arith, fits.addresses, fits.ihl))
    ∙ (drop-behind (net_head g) _ (n - 12) (n - 34) (omega (arith, fits.ihl))
        ∙ (drop-behind g.ip_options _ (n - 34) (g.doff * 4) (omega (arith, fits.ihl))
            ∙ (drop-behind (transport_head g) _ (g.doff * 4) (g.doff * 4 - 20)
                  (omega (arith, fits.doff))
                ∙ drop-behind g.tcp_options _ (g.doff * 4 - 20) 0 (omega (arith, fits.doff)))))

payload-frame :
    (g : Segment) (rest : List ℕ)
    → Fits g
    → take (length g.payload) (drop (14 + g.ihl * 4 + g.doff * 4) (frame g rest)) ≡ g.payload
payload-frame g rest fits = rw (drop-frame g rest fits) (take-append g.payload rest)

-- A segment whose fields fit, in a frame with padding behind it, that fits the buffer: eth_recv hands
-- it on exactly if one of its ends is the target, as a response if that is its source and else as a
-- request; then the packet has the segment's ends, and its data is the payload, of any heads' lengths.
pub eth_recv-segment :
    (ip port : ℕ) (g : Segment) (padding : List ℕ) (pkt : Packet)
    → Fits g
    → length (frame g padding) ≤ length pkt.buf
    → let buf = frame g padding ++ drop (length (frame g padding)) pkt.buf in
      (eth_recv ip port (some (frame g padding)) pkt
        ≡ some (filtered ip port g (record pkt { buf = buf })))
      × (take (length g.payload) (drop (14 + g.ihl * 4 + g.doff * 4) buf) ≡ g.payload)
unfolding eth_recv recv_into
eth_recv-segment ip port g padding pkt fits room =
    rw
      (
        le→leb (length (frame g padding)) (length pkt.buf) room,
        frame-append g padding (drop (length (frame g padding)) pkt.buf),
        proc_incoming_pack-frame g fits (padding ++ drop (length (frame g padding)) pkt.buf) ip
            port,
      )
      (
        pushed-frame g fits (padding ++ drop (length (frame g padding)) pkt.buf) ip port pkt,
        payload-frame g (padding ++ drop (length (frame g padding)) pkt.buf) fits,
      )
