-- ===== src/Process/Examples.antt =====
-- Two connections' packets, one behind the other, and texts of sessions.
use tnsparser.Base.{
  ◌≢◌, ap, drop, get_elem?, set, some, ℕ, ◌+◌, ◌≤◌, ◌≡◌, refl, Bool, true, none, List, [], ◌∷◌,
  ◌++◌, arith, length, replicate, Ensures,
}
use tnsparser.Session.{
  sess_key, zero_key, sess_key, response, request, SessKey, zero_session, sess_init,
}
use tnsparser.Network.{Packet, result_push, eth_recv}
use tnsparser.Tns.Handlers.{CJson}
use tnsparser.Session.{sess_key, zero_key, TnsSession, sess_must_find_node}
use tnsparser.Tns.Types.{Done}
use tnsparser.Process.Sent.{Answered, process_packet-sent}
use tnsparser.Wire.Head
use tnsparser.Wire.Head.{TnsPktHead, on_network}
use tnsparser.Network.Segment
use tnsparser.Network.Segment.{Segment, frame, segment_key}
use tnsparser.Process.{sess_desc, process_all, process_packet}
use tnsparser.Process.Names.{Fits, sess_desc-injective}
use tnsparser.Process.Text.{length-sess_desc}
use tnsparser.Process.Capacity.{OneInUse, process_all-sess_init-OneInUse}

abbrev no_json : CJson
no_json = record {
  Item = Unit;
  parse = λ text. none;
  get_object_item = λ item name. none;
  value_string = λ item. none;
}

abbrev malloc : ℕ → Bool
malloc size = true

abbrev client : SessKey
client = record { sip = 0x0100007f; dip = 0x0200007f; sport = 0x3930; dport = 0xf105 }

-- An accept packet of version 313 with nothing behind its fields.
abbrev accept : List ℕ
accept = 0 ∷ 40 ∷ 0 ∷ 0 ∷ 2 ∷ 0 ∷ 0 ∷ 0 ∷ 1 ∷ 57 ∷ replicate 30 0

abbrev packet : SessKey → Packet
packet key = record {
  buf = accept;
  data_at = 0;
  len = 40;
  dir = request;
  action = result_push;
  key = key;
}

client-HasKey : sess_key client request ≢ zero_key
unfolding sess_key
client-HasKey e = absurd (cc (ap (λ k. k.dport) e))

other-HasKey : sess_key (record client { sport = 1 }) request ≢ zero_key
unfolding sess_key
other-HasKey e = absurd (cc (ap (λ k. k.dport) e))

process_all-sess_init-OneInUse_example : Ensures OneInUse (
    process_all no_json malloc
      (sess_init (replicate 32 zero_session))
      ((1, packet client) ∷ (2, packet (record client { sport = 1 })) ∷ []))
process_all-sess_init-OneInUse_example =
    process_all-sess_init-OneInUse no_json malloc (replicate 32 zero_session)
      ((1, packet client) ∷ (2, packet (record client { sport = 1 })) ∷ []) refl
      (client-HasKey, (other-HasKey, tt))

length-sess_desc_example : length (sess_desc client) + 1 ≤ 64
length-sess_desc_example = length-sess_desc client

client-Fits : Fits client
client-Fits = record {
  sip = omega arith;
  dip = omega arith;
  sport = omega arith;
  dport = omega arith;
}

-- The key of a session as a response of the connection finds it.
sess_desc-injective_example : client ≡ sess_key (sess_key client response) response
unfolding sess_key
sess_desc-injective_example =
    sess_desc-injective client (sess_key (sess_key client response) response) client-Fits
      client-Fits refl

-- A data packet as the target sends it to the client.
abbrev data_head : TnsPktHead
data_head = record { len = 40; pkt_cksum = 0; type = 6; resv = 0; head_ckcum = 0 }

abbrev data_body : List ℕ
data_body = 1 ∷ 57 ∷ replicate 30 0

abbrev data_segment : Segment
data_segment = record {
  addresses = replicate 12 0;
  ihl = 5;
  tos = 0;
  id = 1;
  frag_off = 0;
  ttl = 64;
  ip_check = 0;
  saddr = 0x0200007f;
  daddr = 0x0100007f;
  ip_options = [];
  source = 1521;
  dest = 12345;
  seq = 7;
  ack_seq = 8;
  doff = 5;
  flags = 24;
  window = 512;
  tcp_check = 0;
  urg_ptr = 0;
  tcp_options = [];
  payload = on_network data_head ++ data_body;
}

data_segment-Fits : Segment.Fits data_segment
data_segment-Fits = record {
  addresses = refl;
  ihl = refl;
  ihl_bound = omega arith;
  doff = refl;
  doff_bound = omega arith;
  saddr = omega arith;
  daddr = omega arith;
  source = omega arith;
  dest = omega arith;
  tot_len = omega arith;
}

data_head-Fits : Head.Fits data_head
data_head-Fits = record {
  len = omega arith;
  pkt_cksum = omega arith;
  type = omega arith;
  resv = omega arith;
  head_ckcum = omega arith;
}

abbrev unused : Packet
unused = record (packet client) { buf = replicate 1500 0 }

process_packet-sent_example :
    (p : Packet) × (i : ℕ) × (table : List TnsSession) × (sess : TnsSession) × (d : Done)
    × (eth_recv 0x0200007f 1521 (some (frame data_segment [])) unused ≡ some (0, p))
    × (sess_must_find_node (zero_session ∷ []) (segment_key data_segment) response 5
        ≡ some (i, table))
    × (get_elem? table i ≡ some sess)
    × Answered
        (drop p.data_at p.buf)
        (length data_segment.payload)
        6
        (record sess { cur_dir = response; cur_sess_desc = sess_desc (segment_key data_segment) })
        d
    × (process_packet no_json malloc (zero_session ∷ []) (5, p) ≡ some (set table i d.sess))
process_packet-sent_example =
    process_packet-sent 0x0200007f 1521 no_json malloc zero_session [] 5 data_segment data_head
      data_body [] response unused data_segment-Fits data_head-Fits refl refl (omega arith)
      (λ e. (8, omega arith, refl, refl)) (omega arith) (omega arith) (omega arith)
