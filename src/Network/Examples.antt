-- ===== src/Network/Examples.antt =====
-- A frame of a client to the target 2.0.0.127, port 1521.
use tnsparser.Base.{
  ◌≡◌, ◌↔◌, ◌<◌, refl, ℕ, none, some, length, List, [], ◌∷◌, ◌++◌, ◌+◌, ◌*◌, replicate, arith, drop,
  take,
}
use tnsparser.Session.{request, zero_key}
use tnsparser.Sockets.{Os}
use tnsparser.Sockets.Machine.{linux, machine}
use tnsparser.Network.{Packet, result_drop, eth_recv}
use tnsparser.Network.Directed.{Received}
use tnsparser.Network.Segment
use tnsparser.Network.Segment.{Segment, Fits, filtered}
use tnsparser.Network.Frames.{eth_recv-segment}
use tnsparser.Network.Total.{eth_recv-Returns}
use tnsparser.Network.Ethernet.{eth_handle, eth_recv_from}
use tnsparser.Network.Overflow.{eth_recv_from-faults}

abbrev unused : Packet
unused = record {
  buf = replicate 1500 0;
  data_at = 0;
  len = 0;
  dir = request;
  action = result_drop;
  key = zero_key;
}

-- 44 bytes behind the Ethernet head: two heads of 20 bytes and 4 bytes of data.
abbrev frame : List ℕ
frame =
    replicate 12 0
    ++ (8
        ∷ 0
        ∷ 0x45
        ∷ 0
        ∷ 0
        ∷ 44
        ∷ 0
        ∷ 0
        ∷ 0
        ∷ 0
        ∷ 64
        ∷ 6
        ∷ 0
        ∷ 0
        ∷ 127
        ∷ 0
        ∷ 0
        ∷ 1
        ∷ 127
        ∷ 0
        ∷ 0
        ∷ 2
        ∷ 0x30
        ∷ 0x39
        ∷ 5
        ∷ 241
        ∷ (replicate 8 0 ++ (0x50 ∷ (replicate 7 0 ++ (1 ∷ 2 ∷ 3 ∷ 4 ∷ [])))))

eth_recv-Returns_example :
    (r : ℕ × Packet) × (eth_recv 0x0200007f 1521 (some frame) unused ≡ some r)
    × Received 0x0200007f 1521 unused r
eth_recv-Returns_example = eth_recv-Returns 0x0200007f 1521 frame unused (omega arith) (omega arith)

-- A frame of 1514 bytes, an Ethernet head and the 1500 bytes that may follow it.
abbrev full_frame : List ℕ
full_frame = replicate 1514 0

abbrev wire : Os
wire = record linux { recvfrom = λ fd len m. (some full_frame, m) }

eth_recv_from-faults_example :
    (eth_recv_from wire 0x0200007f 1521 (eth_handle 3) unused machine ≡ none)
    ↔ (1500 < length full_frame)
eth_recv_from-faults_example =
    eth_recv_from-faults wire 0x0200007f 1521 3 unused machine machine full_frame refl refl

-- A packet to the target with four bytes of options in its IP head, eight in its TCP head, and three
-- bytes of data.
abbrev segment : Segment
segment = record {
  addresses = replicate 12 0;
  ihl = 6;
  tos = 0;
  id = 1;
  frag_off = 0;
  ttl = 64;
  ip_check = 0;
  saddr = 0x0100007f;
  daddr = 0x0200007f;
  ip_options = replicate 4 1;
  source = 12345;
  dest = 1521;
  seq = 7;
  ack_seq = 8;
  doff = 7;
  flags = 24;
  window = 512;
  tcp_check = 0;
  urg_ptr = 0;
  tcp_options = replicate 8 1;
  payload = 1 ∷ 2 ∷ 3 ∷ [];
}

segment-Fits : Fits segment
segment-Fits = record {
  addresses = refl;
  ihl = refl;
  ihl_bound = omega arith;
  doff = refl;
  doff_bound = omega arith;
  saddr = omega arith;
  daddr = omega arith;
  source = omega arith;
  dest = omega arith;
  tot_len = omega arith;
}

eth_recv-segment_example :
    let buf = Segment.frame segment [] ++ drop (length (Segment.frame segment [])) unused.buf in
    (eth_recv 0x0200007f 1521 (some (Segment.frame segment [])) unused
      ≡ some (filtered 0x0200007f 1521 segment (record unused { buf = buf })))
    × (take (length segment.payload) (drop (14 + segment.ihl * 4 + segment.doff * 4) buf)
        ≡ segment.payload)
eth_recv-segment_example =
    eth_recv-segment 0x0200007f 1521 segment [] unused segment-Fits (omega arith)
