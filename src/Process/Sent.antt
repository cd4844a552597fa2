-- ===== src/Process/Sent.antt =====
-- From the wire to the session: what becomes of a TNS packet that one end of a connection with the
-- target sends, received by eth_recv and handled in a round of process_thread.
use tnsparser.Base.{
  get_elem?-behind, inl, inr, suc, ◌-◌, ℕ, ◌+◌, ◌*◌, ◌≤◌, ◌≡◌, ◌≢◌, refl, sym, ap, subst, ◌∙◌, Bool,
  false, Option, some, List, [], ◌∷◌, ◌++◌, append_assoc, arith, length, length-append, length-drop,
  get_elem?, set, drop, ◌==◌, ◌&&◌, eqb_self, eqb-cases, ne→eqb, eq_of_some, ◌>>=◌,
}
use tnsparser.Wire.{pkt_len, pkt_type}
use tnsparser.Wire.Head
use tnsparser.Wire.Head.{TnsPktHead, on_network, on_network-fields}
use tnsparser.Session.{Direction, request, response, TnsSession, sess_must_find_node}
use tnsparser.Network.{Packet, eth_recv}
use tnsparser.Network.Segment
use tnsparser.Network.Segment.{Segment, frame, segment_key, accepted, filtered}
use tnsparser.Network.Frames.{eth_recv-segment, drop-frame, frame-append}
use tnsparser.Tns.Types.{Done, code_pkt_type, tns_type_connect, tns_type_data}
use tnsparser.Tns.Handlers.{CJson}
use tnsparser.Tns.Handled.{Handled}
use tnsparser.Tns.Parse.{msg_type_handles, tns_protocol_parse}
use tnsparser.Tns.Outcome.{Outcome, wrong_length, wrong_type, handled, IsUnhandled}
use tnsparser.Process.{sess_desc, Processed, mainprocess, process_packet, is_pushed}
use tnsparser.Process.Answer.{Processes, mainprocess-Processes}
use tnsparser.Tns.Total.{tns_protocol_parse-Returns}
use tnsparser.Tns.DataTotal.{tns_protocol_parse-data}

-- The target sends the segment, or its peer does.
abbrev pub Sends : ℕ → ℕ → Segment → Direction → Type 0
Sends ip port g response = (g.saddr ≡ ip) × (g.source ≡ port)
Sends ip port g request =
    (g.daddr ≡ ip) × (g.dest ≡ port) × (((g.saddr == ip) && (g.source == port)) ≡ false)

filtered-Sends :
    (ip port : ℕ) (g : Segment) (pkt : Packet) (dir : Direction)
    → Sends ip port g dir
    → filtered ip port g pkt ≡ (0, accepted g pkt dir)
unfolding filtered
filtered-Sends ip port g pkt response (addr, at) = rw (addr, at, eqb_self ip, eqb_self port) refl
filtered-Sends ip port g pkt request (addr, at, other) =
    rw (other, addr, at, eqb_self ip, eqb_self port) refl

-- The answer to a packet of a type with a handler, and to one without.
pub data Answered (pkt : List ℕ) (len type : ℕ) (s : TnsSession) (d : Done) : Type 0 where
  with_handler : Handled pkt len type s d → Answered pkt len type s d
  without_handler :
      IsUnhandled msg_type_handles type
      → d ≡ record { code = code_pkt_type; sess = s; out = [] }
      → Answered pkt len type s d

Outcome-Answered :
    (pkt : List ℕ) (len type : ℕ) (s : TnsSession) (d : Done)
    → pkt_len pkt ≡ some len
    → pkt_type pkt ≡ some type
    → Outcome pkt len s d
    → Answered pkt len type s d
Outcome-Answered pkt len type s d e f (wrong_length named g differ same) =
    absurd (differ (eq_of_some (sym e ∙ g)))
Outcome-Answered pkt len type s d e f (wrong_type t g typed u same) =
    without_handler (subst (IsUnhandled msg_type_handles) (eq_of_some (sym typed ∙ f)) u) same
Outcome-Answered pkt len type s d e f (handled t g typed h) =
    with_handler (subst (λ t. Handled pkt len t s d) (eq_of_some (sym typed ∙ f)) h)

not_empty : (h : TnsPktHead) (v body : List ℕ) → v ≡ on_network h ++ body → (length v == 0) ≡ false
not_empty h v body e = ne→eqb (length v) 0 (omega (arith, ap length e))

enough_left :
    (v buf : List ℕ) (n : ℕ)
    → length v ≤ length buf
    → 40 + n ≤ length buf
    → 40 ≤ length (drop n (v ++ drop (length v) buf))
enough_left v buf n room enough = omega (
  arith,
  length-drop n (v ++ drop (length v) buf),
  length-append v (drop (length v) buf),
  length-drop (length v) buf,
  room,
  enough,
)

handled-accepted :
    (lib : CJson) (malloc : ℕ → Bool) (table : List TnsSession) (now : ℕ) (g : Segment)
    (pkt : Packet) (dir : Direction)
    → (length g.payload == 0) ≡ false
    → process_packet lib malloc table (now, accepted g pkt dir) ≡ (
        mainprocess lib malloc table now
          (drop (14 + g.ihl * 4 + g.doff * 4) pkt.buf)
          (length g.payload)
          (segment_key g)
          dir
        >>= λ done. some done.table)
unfolding process_packet is_pushed accepted
handled-accepted lib malloc table now g pkt dir some_data = rw some_data refl

-- Two zero bytes in a row, eight bytes behind the start or farther.
abbrev pub ZerosBehind : List ℕ → Type 0
ZerosBehind l = (j : ℕ) × (8 ≤ j) × (get_elem? l j ≡ some 0) × (get_elem? l (suc j) ≡ some 0)

-- What the parser answers to the packet in memory, whatever the session.
packet-answers :
    (lib : CJson) (malloc : ℕ → Bool) (mem v left : List ℕ) (type : ℕ) (sess : TnsSession)
    → mem ≡ v ++ left
    → 40 ≤ length mem
    → pkt_type mem ≡ some type
    → type ≢ tns_type_connect
    → (type ≡ tns_type_data → ZerosBehind left)
    → (d : Done) × (tns_protocol_parse lib malloc mem (length v) sess ≡ some d)
      × Outcome mem (length v) sess d
packet-answers lib malloc mem v left type sess at room typed no_connect zeros =
    elim (eqb-cases type tns_type_data) [
      | inr no_data ↦
          tns_protocol_parse-Returns lib malloc mem (length v) sess type room typed no_connect
            no_data
      | inl data_type ↦
          let (j, far, end, end_next) = zeros data_type in
          let k = length v + (j - 8) in
          tns_protocol_parse-data mem (length v) k (omega arith)
            (ap (λ l. get_elem? l (8 + k)) at
              ∙ (get_elem?-behind v left (8 + k) j (omega (arith, far)) ∙ end))
            (ap (λ l. get_elem? l (8 + suc k)) at
              ∙ (get_elem?-behind v left (8 + suc k) (suc j) (omega (arith, far)) ∙ end_next))
            lib malloc sess (typed ∙ ap some data_type)
    ]

-- A TNS packet with a head whose fields fit and that names its length, of any type but connect, in
-- a segment whose fields fit, sent by the target or to it, in a frame that fits the buffer, with 40
-- bytes of the buffer from the payload on, and for a data packet two zero bytes in a row in the
-- buffer, eight bytes behind the payload or farther: eth_recv hands it on, and a round of
-- process_thread on a table with a slot gives it the session of the segment's ends and its
-- direction, whose direction and text are set, and which afterwards holds, by the packet's type,
-- what the handler of the type makes of it (a longer accept packet its version and the accept
-- state, a longer refuse packet the refuse state, a longer data packet the data state and what its
-- payload's handler leaves, any other nothing), or, of a type without one, nothing more.
pub process_packet-sent :
    (ip port : ℕ) (lib : CJson) (malloc : ℕ → Bool) (s : TnsSession) (others : List TnsSession)
    (now : ℕ) (g : Segment) (h : TnsPktHead) (body padding : List ℕ) (dir : Direction)
    (pkt : Packet)
    → Segment.Fits g
    → Head.Fits h
    → g.payload ≡ on_network h ++ body
    → h.len ≡ length g.payload
    → h.type ≢ tns_type_connect
    → (h.type ≡ tns_type_data → ZerosBehind (padding ++ drop (length (frame g padding)) pkt.buf))
    → Sends ip port g dir
    → length (frame g padding) ≤ length pkt.buf
    → 54 + g.ihl * 4 + g.doff * 4 ≤ length pkt.buf
    → (p : Packet) × (i : ℕ) × (table : List TnsSession) × (sess : TnsSession) × (d : Done)
      × (eth_recv ip port (some (frame g padding)) pkt ≡ some (0, p))
      × (sess_must_find_node (s ∷ others) (segment_key g) dir now ≡ some (i, table))
      × (get_elem? table i ≡ some sess)
      × Answered
          (drop p.data_at p.buf)
          (length g.payload)
          h.type
          (record sess { cur_dir = dir; cur_sess_desc = sess_desc (segment_key g) })
          d
      × (process_packet lib malloc (s ∷ others) (now, p) ≡ some (set table i d.sess))
unfolding Processes accepted
process_packet-sent ip port lib malloc s others now g h body padding dir pkt fits head payload named
      no_connect zeros sends room enough =
    let left : List ℕ = drop (length (frame g padding)) pkt.buf in
    let buf : List ℕ = frame g padding ++ left in
    let mem : List ℕ = drop (14 + g.ihl * 4 + g.doff * 4) buf in
    let plain : mem ≡ g.payload ++ (padding ++ left) =
      ap (drop (14 + g.ihl * 4 + g.doff * 4)) (frame-append g padding left)
      ∙ drop-frame g (padding ++ left) fits in
    let at : mem ≡ on_network h ++ (body ++ (padding ++ left)) =
      plain
      ∙ (ap (λ l. l ++ (padding ++ left)) payload
          ∙ append_assoc (on_network h) body (padding ++ left)) in
    let fields = on_network-fields h (body ++ (padding ++ left)) head in
    let (i, table, sess, d, e, f, outcome, ran) =
      mainprocess-Processes lib malloc s others now mem (length g.payload) (segment_key g) dir
        λ sess.
          packet-answers lib malloc mem g.payload (padding ++ left) h.type sess plain
            (enough_left (frame g padding) pkt.buf (14 + g.ihl * 4 + g.doff * 4) room
              (omega (arith, enough)))
            (ap pkt_type at ∙ fields.2) no_connect zeros in
    (
      accepted g (record pkt { buf = buf }) dir,
      i,
      table,
      sess,
      d,
      (eth_recv-segment ip port g padding pkt fits room).0
          ∙ ap some (filtered-Sends ip port g _ dir sends),
      e,
      f,
      Outcome-Answered mem (length g.payload) h.type _ d
          (ap pkt_len at ∙ (fields.0 ∙ ap some named)) (ap pkt_type at ∙ fields.2) outcome,
      handled-accepted lib malloc (s ∷ others) now g (record pkt { buf = buf }) dir
            (not_empty h g.payload body payload)
          ∙ ap (λ (m : Option Processed). m >>= λ done. some done.table) ran,
    )
