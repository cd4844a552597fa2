-- ===== src/Network.antt =====
-- The receiving side: src/network.c with `struct Packet` of src/common.h. A buffer is the list of its
-- bytes; `none` is an access outside it. Addresses and ports are loaded as by a little-endian
-- machine. What recv_via_dev delivers is an argument here: `none` for an error, else the bytes;
-- Network/Ethernet calls it.
pub mod Directed
pub mod Total
pub mod Ethernet
pub mod Overflow
pub mod Segment
pub mod Frames
mod Examples
use tnsparser.Base.{
  ℕ, ◌+◌, ◌-◌, ◌*◌, ◌/◌, ◌%◌, Bool, Option, none, some, List, ◌++◌, leb, ◌==◌, ◌&&◌, if◌then◌else◌,
  get_elem?, length, drop, ◌>>=◌,
}
use tnsparser.Wire.{load_ushort, load_ntohs, ntohs}
use tnsparser.Session.{Direction, request, response, SessKey}

-- RESULT_PUSH and RESULT_DROP.
pub data Action : Type 0 where
  result_push result_drop : Action

-- `data` is the offset in `buf` of the byte that the pointer points to.
pub record Packet : Type 0 where
  pub buf : List ℕ
  pub data_at : ℕ
  pub len : ℕ
  pub dir : Direction
  pub action : Action
  pub key : SessKey

abbrev pub eth_head_len : ℕ
eth_head_len = 14

abbrev ipv4 : ℕ
ipv4 = 4

abbrev ipproto_tcp : ℕ
ipproto_tcp = 6

abbrev eth_p_ip : ℕ
eth_p_ip = 2048

-- A 32-bit field, in network order.
unfoldable pub load_uint : List ℕ → ℕ → Option ℕ
load_uint mem offset = do
  low ← load_ushort mem offset
  high ← load_ushort mem (offset + 2)
  some (low + 65536 * high)

-- `ip->ihl << 2`, where ihl is the low half of the IP header's first byte.
unfoldable pub ip_head : List ℕ → Option ℕ
ip_head pack = get_elem? pack eth_head_len >>= λ b. some (b % 16 * 4)

-- `tcp->doff*4`, from the high half of byte 12 of the TCP header.
unfoldable pub tcp_head : List ℕ → ℕ → Option ℕ
tcp_head pack tcp = get_elem? pack (tcp + 12) >>= λ b. some (b / 16 % 16 * 4)

-- What ip_recv leaves in dataLen and dir when it returns RESULT_PUSH.
pub record Accepted : Type 0 where
  pub data_len : ℕ
  pub dir : Direction

-- The two tests on the target at the end of ip_recv; `none` inside is RESULT_DROP.
unfoldable pub match_target : ℕ → ℕ → SessKey → ℕ → Option Accepted
match_target g_target_ip g_target_port key tcp_len =
    if (key.sip == g_target_ip) && (ntohs key.sport == g_target_port)
    then some (record { data_len = tcp_len; dir = response })
    else if (key.dip == g_target_ip) && (ntohs key.dport == g_target_port)
    then some (record { data_len = tcp_len; dir = request })
    else none

-- The addresses of the IP header and the ports of the TCP header.
unfoldable pub packet_key : List ℕ → Option SessKey
packet_key pack = do
  ihl ← ip_head pack
  saddr ← load_uint pack (eth_head_len + 12)
  daddr ← load_uint pack (eth_head_len + 16)
  source ← load_ushort pack (eth_head_len + ihl)
  dest ← load_ushort pack (eth_head_len + ihl + 2)
  some (record { sip = saddr; dip = daddr; sport = source; dport = dest })

-- tot_len less the two headers, as an unsigned short.
unfoldable pub tcp_len : List ℕ → Option ℕ
tcp_len pack = do
  ihl ← ip_head pack
  tot_len ← load_ntohs pack (eth_head_len + 2)
  doff ← tcp_head pack (eth_head_len + ihl)
  some ((tot_len + 65536 - ihl - doff) % 65536)

unfoldable pub ip_recv : ℕ → ℕ → List ℕ → Option (Option Accepted)
ip_recv g_target_ip g_target_port pack = do
  first ← get_elem? pack eth_head_len
  protocol ← get_elem? pack (eth_head_len + 9)
  if first / 16 % 16 == ipv4
      then if protocol == ipproto_tcp
        then (tcp_len pack >>= λ len.
            packet_key pack >>= λ key. some (match_target g_target_ip g_target_port key len))
        else some none
      else some none

unfoldable pub proc_incoming_pack : ℕ → ℕ → List ℕ → Option (Option Accepted)
proc_incoming_pack g_target_ip g_target_port pack = do
  eproto ← load_ntohs pack 12
  if eproto == eth_p_ip then ip_recv g_target_ip g_target_port pack else some none

unfoldable pub recv_set_pack_info : Packet → ℕ → Direction → Action → Option Packet
recv_set_pack_info pkt data_len dir action = do
  ihl ← ip_head pkt.buf
  doff ← tcp_head pkt.buf (eth_head_len + ihl)
  key ← packet_key pkt.buf
  some (record {
    buf = pkt.buf;
    data_at = eth_head_len + ihl + doff;
    len = data_len;
    dir = dir;
    action = action;
    key = key;
  })

-- The received bytes in front of what the buffer held; more bytes than it has are written outside.
unfoldable pub recv_into : List ℕ → List ℕ → Option (List ℕ)
recv_into buf bytes =
    if leb (length bytes) (length buf) then some (bytes ++ drop (length bytes) buf) else none

-- Behind proc_incoming_pack.
unfoldable pub pushed : Packet → Option Accepted → Option (ℕ × Packet)
pushed pkt none = some (1, pkt)
pushed pkt (some a) = recv_set_pack_info pkt a.data_len a.dir result_push >>= λ pkt'. some (0, pkt')

unfoldable pub eth_recv : ℕ → ℕ → Option (List ℕ) → Packet → Option (ℕ × Packet)
eth_recv g_target_ip g_target_port none pkt = some (1, pkt)
eth_recv g_target_ip g_target_port (some bytes) pkt = do
  buf ← recv_into pkt.buf bytes
  accepted ← proc_incoming_pack g_target_ip g_target_port buf
  pushed (record pkt { buf = buf }) accepted
