-- ===== src/Network/Segment.antt =====
-- Frames as a sender writes them: a TCP segment in an IP packet in an Ethernet frame.
use tnsparser.Base.{
  ℕ, ◌+◌, ◌*◌, ◌/◌, ◌%◌, ◌<◌, ◌≡◌, List, [], ◌∷◌, ◌++◌, length, ◌==◌, ◌&&◌, if◌then◌else◌,
}
use tnsparser.Wire.{ntohs}
use tnsparser.Session.{Direction, request, response, SessKey}
use tnsparser.Network.{Packet, result_push}

-- The fields in the order of RFC 791 and RFC 9293; `ihl` and `doff` count words of four bytes. The
-- addresses are in network order, as the program keeps them, and the ports are plain numbers.
pub record Segment : Type 0 where
  pub addresses : List ℕ
  pub ihl : ℕ
  pub tos : ℕ
  pub id : ℕ
  pub frag_off : ℕ
  pub ttl : ℕ
  pub ip_check : ℕ
  pub saddr : ℕ
  pub daddr : ℕ
  pub ip_options : List ℕ
  pub source : ℕ
  pub dest : ℕ
  pub seq : ℕ
  pub ack_seq : ℕ
  pub doff : ℕ
  pub flags : ℕ
  pub window : ℕ
  pub tcp_check : ℕ
  pub urg_ptr : ℕ
  pub tcp_options : List ℕ
  pub payload : List ℕ

abbrev pub tot_len : Segment → ℕ
tot_len g = g.ihl * 4 + g.doff * 4 + length g.payload

-- What the parser reads fits its fields.
pub record Fits (g : Segment) : Type 0 where
  pub addresses : length g.addresses ≡ 12
  pub ihl : g.ihl * 4 ≡ 20 + length g.ip_options
  pub ihl_bound : g.ihl < 16
  pub doff : g.doff * 4 ≡ 20 + length g.tcp_options
  pub doff_bound : g.doff < 16
  pub saddr : g.saddr < 4294967296
  pub daddr : g.daddr < 4294967296
  pub source : g.source < 65536
  pub dest : g.dest < 65536
  pub tot_len : tot_len g < 65536

abbrev in_memory : ℕ → List ℕ → List ℕ
in_memory n rest = n % 256 ∷ n / 256 % 256 ∷ n / 65536 % 256 ∷ n / 16777216 % 256 ∷ rest

-- The frame's type, 0x0800 for IP, and the head of the IP packet, for TCP, up to its options.
abbrev pub net_head : Segment → List ℕ
net_head g =
    8
    ∷ 0
    ∷ (64 + g.ihl)
    ∷ g.tos
    ∷ tot_len g / 256
    ∷ tot_len g % 256
    ∷ g.id / 256
    ∷ g.id % 256
    ∷ g.frag_off / 256
    ∷ g.frag_off % 256
    ∷ g.ttl
    ∷ 6
    ∷ g.ip_check / 256
    ∷ g.ip_check % 256
    ∷ in_memory g.saddr (in_memory g.daddr [])

abbrev pub transport_head : Segment → List ℕ
transport_head g =
    g.source / 256
    ∷ g.source % 256
    ∷ g.dest / 256
    ∷ g.dest % 256
    ∷ in_memory g.seq (
        in_memory g.ack_seq (
          g.doff * 16
          ∷ g.flags
          ∷ g.window / 256
          ∷ g.window % 256
          ∷ g.tcp_check / 256
          ∷ g.tcp_check % 256
          ∷ g.urg_ptr / 256
          ∷ g.urg_ptr % 256
          ∷ []))

-- With what lies behind it.
abbrev pub frame : Segment → List ℕ → List ℕ
frame g rest =
    g.addresses
    ++ (net_head g
        ++ (g.ip_options ++ (transport_head g ++ (g.tcp_options ++ (g.payload ++ rest)))))

abbrev pub segment_key : Segment → SessKey
segment_key g = record {
  sip = g.saddr;
  dip = g.daddr;
  sport = ntohs g.source;
  dport = ntohs g.dest;
}

-- A segment that is handed on, in the buffer of a packet.
unfoldable pub accepted : Segment → Packet → Direction → Packet
accepted g pkt dir = record {
  buf = pkt.buf;
  data_at = 14 + g.ihl * 4 + g.doff * 4;
  len = length g.payload;
  dir = dir;
  action = result_push;
  key = segment_key g;
}

-- What the filter is to make of a segment.
unfoldable pub filtered : ℕ → ℕ → Segment → Packet → ℕ × Packet
unfolding accepted
filtered ip port g pkt =
    if (g.saddr == ip) && (g.source == port)
    then (0, accepted g pkt response)
    else (if (g.daddr == ip) && (g.dest == port) then (0, accepted g pkt request) else (1, pkt))
