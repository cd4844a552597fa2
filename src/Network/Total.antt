-- ===== src/Network/Total.antt =====
-- Which frames eth_recv is sure to judge.
use tnsparser.Base.{
  ℕ, suc, ◌+◌, ◌/◌, ◌%◌, ◌≤◌, ◌≡◌, refl, Option, none, some, List, ◌++◌, arith, ◌==◌, length,
  get_elem?, get_elem?-lt, length-append, length-drop, drop, Returns, Returns->>=, Returns-if,
  Ensures-Returns, le→leb,
}
use tnsparser.Wire.{load_ushort, load_ntohs}
use tnsparser.Network.{
  Packet, Accepted, load_uint, ip_head, tcp_head, packet_key, tcp_len, ip_recv, proc_incoming_pack,
  recv_set_pack_info, recv_into, pushed, eth_recv,
}
use tnsparser.Network.Directed.{Received, eth_recv-Received, ip_head-bound}

-- The greatest IP head is 60 bytes, and the parser looks at 13 bytes of the TCP head behind it.
abbrev pub least_buffer : ℕ
least_buffer = 87

module _ (pack : List ℕ) (room : least_buffer ≤ length pack) where
  load_ushort-Returns : (i : ℕ) → i ≤ 80 → Returns (load_ushort pack i)
  unfolding load_ushort
  load_ushort-Returns i h =
      let (low, e) = get_elem?-lt pack i (omega arith) in
      let (high, f) = get_elem?-lt pack (suc i) (omega arith) in rw (e, f) (_, refl)

  load_uint-Returns : (i : ℕ) → i ≤ 70 → Returns (load_uint pack i)
  unfolding load_uint
  load_uint-Returns i h =
      Returns->>= (load_ushort pack i) _ (load_ushort-Returns i (omega arith)) λ low _.
        Returns->>= (load_ushort pack (i + 2)) _ (load_ushort-Returns (i + 2) (omega arith))
          λ high _. (_, refl)

  load_ntohs-Returns : (i : ℕ) → i ≤ 80 → Returns (load_ntohs pack i)
  unfolding load_ntohs
  load_ntohs-Returns i h =
      Returns->>= (load_ushort pack i) _ (load_ushort-Returns i h) λ val _. (_, refl)

  read_head : Returns (ip_head pack)
  unfolding ip_head
  read_head =
      Returns->>= (get_elem? pack 14) _ (get_elem?-lt pack 14 (omega arith)) λ b _. (_, refl)

  -- A head of at most 60 bytes.
  ip_head-Returns : (n : ℕ) × (ip_head pack ≡ some n) × (n ≤ 60)
  ip_head-Returns =
      Ensures-Returns (λ (n : ℕ). n ≤ 60) (ip_head pack) (ip_head-bound pack) read_head

  tcp_head-Returns : (ihl : ℕ) → ihl ≤ 60 → Returns (tcp_head pack (14 + ihl))
  unfolding tcp_head
  tcp_head-Returns ihl h =
      Returns->>= (get_elem? pack (14 + ihl + 12)) _
        (get_elem?-lt pack (14 + ihl + 12) (omega arith)) λ b _. (_, refl)

  packet_key-Returns : Returns (packet_key pack)
  unfolding packet_key
  packet_key-Returns =
      let (ihl, e, small) = ip_head-Returns in
      rw e (
        Returns->>= (load_uint pack 26) _ (load_uint-Returns 26 (omega arith)) λ saddr _.
          Returns->>= (load_uint pack 30) _ (load_uint-Returns 30 (omega arith)) λ daddr _.
            Returns->>= (load_ushort pack (14 + ihl)) _
              (load_ushort-Returns (14 + ihl) (omega arith))
              λ source _.
                Returns->>= (load_ushort pack (14 + ihl + 2)) _
                  (load_ushort-Returns (14 + ihl + 2) (omega arith)) λ dest _. (_, refl))

  tcp_len-Returns : Returns (tcp_len pack)
  unfolding tcp_len
  tcp_len-Returns =
      let (ihl, e, small) = ip_head-Returns in
      rw e (
        Returns->>= (load_ntohs pack 16) _ (load_ntohs-Returns 16 (omega arith)) λ tot_len _.
          Returns->>= (tcp_head pack (14 + ihl)) _ (tcp_head-Returns ihl small) λ doff _. (_, refl))

  proc_incoming_pack-Returns : (ip port : ℕ) → Returns (proc_incoming_pack ip port pack)
  unfolding proc_incoming_pack ip_recv
  proc_incoming_pack-Returns ip port =
      Returns->>= (load_ntohs pack 12) _ (load_ntohs-Returns 12 (omega arith)) λ eproto _.
        Returns-if (eproto == 2048) _ (some none)
          (Returns->>= (get_elem? pack 14) _ (get_elem?-lt pack 14 (omega arith)) λ first _.
            Returns->>= (get_elem? pack 23) _ (get_elem?-lt pack 23 (omega arith)) λ protocol _.
              Returns-if (first / 16 % 16 == 4) _ (some none)
                (Returns-if (protocol == 6) _ (some none)
                  (Returns->>= (tcp_len pack) _ tcp_len-Returns
                    λ len _. Returns->>= (packet_key pack) _ packet_key-Returns λ key _. (_, refl))
                  (_, refl))
                (_, refl))
          (_, refl)

pushed-Returns :
    (pkt : Packet) (o : Option Accepted) → least_buffer ≤ length pkt.buf → Returns (pushed pkt o)
unfolding pushed recv_set_pack_info
pushed-Returns pkt none room = (_, refl)
pushed-Returns pkt (some a) room =
    let (ihl, e, small) = ip_head-Returns pkt.buf room in
    let (doff, f) = tcp_head-Returns pkt.buf room ihl small in
    let (key, g) = packet_key-Returns pkt.buf room in rw (e, f, g) (_, refl)

recv_into-fits :
    (buf bytes : List ℕ)
    → length bytes ≤ length buf
    → recv_into buf bytes ≡ some (bytes ++ drop (length bytes) buf)
unfolding recv_into
recv_into-fits buf bytes h = rw (le→leb (length bytes) (length buf) h)

-- With a buffer of 87 bytes at least and no more bytes received than it holds, eth_recv accesses
-- nothing outside the buffer, whatever the bytes are, and ends in one of its two ways.
pub eth_recv-Returns :
    (ip port : ℕ) (bytes : List ℕ) (pkt : Packet)
    → least_buffer ≤ length pkt.buf
    → length bytes ≤ length pkt.buf
    → (r : ℕ × Packet) × (eth_recv ip port (some bytes) pkt ≡ some r) × Received ip port pkt r
unfolding eth_recv
eth_recv-Returns ip port bytes pkt room fits =
    Ensures-Returns (Received ip port pkt) (eth_recv ip port (some bytes) pkt)
      (eth_recv-Received ip port (some bytes) pkt)
      (rw (recv_into-fits pkt.buf bytes fits) (
        Returns->>= (proc_incoming_pack ip port buf) _
          (proc_incoming_pack-Returns buf filled ip port)
          λ o _. pushed-Returns (record pkt { buf = buf }) o filled))
  where
    buf : List ℕ
    buf = bytes ++ drop (length bytes) pkt.buf

    filled : least_buffer ≤ length buf
    filled = omega (
      arith,
      length-append bytes (drop (length bytes) pkt.buf),
      length-drop (length bytes) pkt.buf,
    )
