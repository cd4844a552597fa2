-- ===== src/Network/Directed.antt =====
-- What eth_recv promises of a packet that it hands on.
use tnsparser.Base.{
  ℕ, ◌+◌, ◌-◌, ◌/◌, ◌%◌, ◌<◌, ◌≤◌, ◌≡◌, refl, sym, ap, ◌∙◌, Bool, true, Option, none, some, List,
  arith, leb, ◌==◌, ◌&&◌, length, length-append, length-drop, get_elem?, leb→le, eqb→eq, subst,
  Ensures, Ensures->>=, Option-cases, Ensures->>=_eq, Ensures-if, Ensures-if_eq, Ensures-seq,
  Ensures-mono, drop, eq_of_some, inl, inr,
}
use tnsparser.Wire.{ntohs, load_ntohs}
use tnsparser.Session.{request, response, SessKey, sess_key}
use tnsparser.Network.{
  Packet, result_push, Accepted, match_target, packet_key, tcp_len, ip_recv, proc_incoming_pack,
  recv_set_pack_info, recv_into, pushed, eth_recv, ip_head, tcp_head,
}

-- The end of the connection that the key names as the server is the target.
abbrev pub IsTarget : ℕ → ℕ → SessKey → Type 0
IsTarget ip port key = (key.dip ≡ ip) × (ntohs key.dport ≡ port)

-- What ip_recv has found out about a buffer that it accepts.
abbrev Judged : ℕ → ℕ → List ℕ → Accepted → Type 0
Judged ip port pack a =
    (key : SessKey) × (packet_key pack ≡ some key)
    × IsTarget ip port (sess_key key a.dir)
    × (tcp_len pack ≡ some a.data_len)

both_true : (a b : Bool) → (a && b) ≡ true → (a ≡ true) × (b ≡ true)
both_true a b h = ground arith

match_target-IsTarget :
    (ip port len : ℕ) (key : SessKey)
    → Ensures
        (λ (a : Accepted). IsTarget ip port (sess_key key a.dir) × (a.data_len ≡ len))
        (match_target ip port key len)
unfolding match_target sess_key
match_target-IsTarget ip port len key =
    Ensures-if_eq (λ (a : Accepted). IsTarget ip port (sess_key key a.dir) × (a.data_len ≡ len))
      ((key.sip == ip) && (ntohs key.sport == port))
      (some (record { data_len = len; dir = response })) _
      (λ h. (named key.sip (ntohs key.sport) h, refl))
      λ _.
        Ensures-if_eq (λ (a : Accepted). IsTarget ip port (sess_key key a.dir) × (a.data_len ≡ len))
          ((key.dip == ip) && (ntohs key.dport == port))
          (some (record { data_len = len; dir = request })) none
          (λ h. (named key.dip (ntohs key.dport) h, refl)) (λ _. tt)
  where
    named : (a b : ℕ) → ((a == ip) && (b == port)) ≡ true → (a ≡ ip) × (b ≡ port)
    named a b h = let (x, y) = both_true (a == ip) (b == port) h in (eqb→eq a ip x, eqb→eq b port y)

ip_recv-Judged :
    (ip port : ℕ) (pack : List ℕ)
    → Ensures (λ (o : Option Accepted). Ensures (Judged ip port pack) o) (ip_recv ip port pack)
unfolding ip_recv
ip_recv-Judged ip port pack = Ensures->>= Fits (get_elem? pack 14) _ λ first.
    Ensures->>= Fits (get_elem? pack 23) _ λ protocol.
      Ensures-if Fits (first / 16 % 16 == 4) _ (some none)
        (Ensures-if Fits (protocol == 6) _ (some none)
          (Ensures->>=_eq Fits (tcp_len pack) _ λ len e.
            Ensures->>=_eq Fits (packet_key pack) _ λ key f.
              Ensures-mono
                (λ (a : Accepted). IsTarget ip port (sess_key key a.dir) × (a.data_len ≡ len))
                (Judged ip port pack) (match_target ip port key len)
                (λ a (t, l). (key, f, t, e ∙ ap (λ n. some n) (sym l)))
                (match_target-IsTarget ip port len key))
          tt)
        tt
  where
    Fits : Option Accepted → Type 0
    Fits o = Ensures (Judged ip port pack) o

proc_incoming_pack-Judged :
    (ip port : ℕ) (pack : List ℕ)
    → Ensures
        (λ (o : Option Accepted). Ensures (Judged ip port pack) o)
        (proc_incoming_pack ip port pack)
unfolding proc_incoming_pack
proc_incoming_pack-Judged ip port pack =
    Ensures->>= (λ (o : Option Accepted). Ensures (Judged ip port pack) o) (load_ntohs pack 12) _
      λ eproto.
        Ensures-if (λ (o : Option Accepted). Ensures (Judged ip port pack) o) (eproto == 2048) _
          (some none) (ip_recv-Judged ip port pack) tt

-- A packet that is handed on, for a buffer of the same size: it is marked RESULT_PUSH, has the
-- addresses and ports of the buffer, and lies between the client and the target, whose end is the
-- server's in the session key for its direction. Up to a multiple of 2 ^ 16 its data ends where the
-- IP packet ends, and it starts at most behind the longest headers.
pub record Handed (ip port : ℕ) (pkt p : Packet) : Type 0 where
  pub same_size : length p.buf ≡ length pkt.buf
  pub action : p.action ≡ result_push
  pub key : packet_key p.buf ≡ some p.key
  pub target : IsTarget ip port (sess_key p.key p.dir)
  pub end_at :
      (tot_len : ℕ) × (load_ntohs p.buf 16 ≡ some tot_len)
      × ((p.data_at + p.len) % 65536 ≡ (14 + tot_len) % 65536)
  pub len_bound : p.len < 65536
  pub data_near : p.data_at ≤ 134

-- The two results of eth_recv.
pub data Received (ip port : ℕ) (pkt : Packet) (r : ℕ × Packet) : Type 0 where
  handed : r.0 ≡ 0 → Handed ip port pkt r.1 → Received ip port pkt r
  ignored :
      (buf : List ℕ)
      → length buf ≡ length pkt.buf
      → r ≡ (1, record pkt { buf = buf })
      → Received ip port pkt r

recv_into-length :
    (buf bytes : List ℕ) → Ensures (λ (b : List ℕ). length b ≡ length buf) (recv_into buf bytes)
unfolding recv_into
recv_into-length buf bytes =
    Ensures-if_eq (λ (b : List ℕ). length b ≡ length buf) (leb (length bytes) (length buf)) _ none
      (λ h. length-append bytes (drop (length bytes) buf) ∙ fills h) (λ _. tt)
  where
    fills :
        leb (length bytes) (length buf) ≡ true
        → length bytes + length (drop (length bytes) buf) ≡ length buf
    fills h = omega (arith, length-drop (length bytes) buf, leb→le (length bytes) (length buf) h)

end_of_data :
    (t ihl doff : ℕ)
    → ihl ≤ 60
    → doff ≤ 60
    → (14 + ihl + doff + (t + 65536 - ihl - doff) % 65536) % 65536 ≡ (14 + t) % 65536
end_of_data t ihl doff h k = omega arith

pub ip_head-bound : (pack : List ℕ) → Ensures (λ (n : ℕ). n ≤ 60) (ip_head pack)
unfolding ip_head
ip_head-bound pack = Ensures->>= (λ (n : ℕ). n ≤ 60) (get_elem? pack 14) _ λ b. omega arith

tcp_head-bound : (pack : List ℕ) (tcp : ℕ) → Ensures (λ (n : ℕ). n ≤ 60) (tcp_head pack tcp)
unfolding tcp_head
tcp_head-bound pack tcp =
    Ensures->>= (λ (n : ℕ). n ≤ 60) (get_elem? pack (tcp + 12)) _ λ b. omega arith

tcp_len-end :
    (pack : List ℕ) (ihl doff len : ℕ)
    → ip_head pack ≡ some ihl
    → tcp_head pack (14 + ihl) ≡ some doff
    → tcp_len pack ≡ some len
    → (tot_len : ℕ) × (load_ntohs pack 16 ≡ some tot_len)
      × ((14 + ihl + doff + len) % 65536 ≡ (14 + tot_len) % 65536)
      × (len < 65536)
unfolding tcp_len
tcp_len-end pack ihl doff len e f g = elim (Option-cases (load_ntohs pack 16)) [
  | inl missing ↦ (let h = sym (unread missing) ∙ g in cc)
  | inr (tot, loaded) ↦
      let same = eq_of_some (sym g ∙ read tot loaded) in
      let small = subst (Ensures λ (n : ℕ). n ≤ 60) e (ip_head-bound pack) in
      let small' = subst (Ensures λ (n : ℕ). n ≤ 60) f (tcp_head-bound pack (14 + ihl)) in
      (tot, loaded, rw same (end_of_data tot ihl doff small small'), omega (arith, same))
]
  where
    unread : load_ntohs pack 16 ≡ none → tcp_len pack ≡ none
    unread missing = rw (e, missing) refl

    read :
        (tot : ℕ)
        → load_ntohs pack 16 ≡ some tot
        → tcp_len pack ≡ some ((tot + 65536 - ihl - doff) % 65536)
    read tot loaded = rw (e, loaded, f) refl

recv_set_pack_info-Handed :
    (ip port : ℕ) (pkt p : Packet) (a : Accepted)
    → length p.buf ≡ length pkt.buf
    → Judged ip port p.buf a
    → Ensures (Handed ip port pkt) (recv_set_pack_info p a.data_len a.dir result_push)
unfolding recv_set_pack_info
recv_set_pack_info-Handed ip port pkt p a size (key, e, target, judged) =
    Ensures->>=_eq (Handed ip port pkt) (ip_head p.buf) _ λ ihl f.
      Ensures->>=_eq (Handed ip port pkt) (tcp_head p.buf (14 + ihl)) _ λ doff g.
        Ensures->>=_eq (Handed ip port pkt) (packet_key p.buf) _ λ key' h.
          let (tot, loaded, end_at, bound) = tcp_len-end p.buf ihl doff a.data_len f g judged in
          record {
            same_size = size;
            action = refl;
            key = h;
            target =
                subst (λ k. IsTarget ip port (sess_key k a.dir)) (eq_of_some (sym e ∙ h)) target;
            end_at = (tot, loaded, end_at);
            len_bound = bound;
            data_near = omega (
              arith,
              subst (Ensures λ (n : ℕ). n ≤ 60) f (ip_head-bound p.buf),
              subst (Ensures λ (n : ℕ). n ≤ 60) g (tcp_head-bound p.buf (14 + ihl)),
            );
          }

pushed-Received :
    (ip port : ℕ) (pkt : Packet) (buf : List ℕ) (o : Option Accepted)
    → length buf ≡ length pkt.buf
    → Ensures (Judged ip port buf) o
    → Ensures (Received ip port pkt) (pushed (record pkt { buf = buf }) o)
unfolding pushed
pushed-Received ip port pkt buf none size judged = ignored buf size refl
pushed-Received ip port pkt buf (some a) size judged =
    Ensures-seq (Handed ip port pkt) (Received ip port pkt)
      (recv_set_pack_info (record pkt { buf = buf }) a.data_len a.dir result_push) _
      (recv_set_pack_info-Handed ip port pkt (record pkt { buf = buf }) a size judged)
      λ p e h. handed refl h

-- Every packet that eth_recv hands on belongs to a connection with the configured target, and is
-- given the direction for which the session key names the target as the server; all else is
-- dropped, with nothing but the buffer changed.
pub eth_recv-Received :
    (ip port : ℕ) (bytes : Option (List ℕ)) (pkt : Packet)
    → Ensures (Received ip port pkt) (eth_recv ip port bytes pkt)
unfolding eth_recv
eth_recv-Received ip port none pkt = ignored pkt.buf refl refl
eth_recv-Received ip port (some bytes) pkt =
    Ensures-seq (λ (b : List ℕ). length b ≡ length pkt.buf) (Received ip port pkt)
      (recv_into pkt.buf bytes) _ (recv_into-length pkt.buf bytes)
      λ buf e size.
        Ensures-seq (λ (o : Option Accepted). Ensures (Judged ip port buf) o) (Received ip port pkt)
          (proc_incoming_pack ip port buf) _ (proc_incoming_pack-Judged ip port buf)
          λ o f judged. pushed-Received ip port pkt buf o size judged
