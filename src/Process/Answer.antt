-- ===== src/Process/Answer.antt =====
-- What mainprocess answers.
use tnsparser.Base.{
  ◌+◌, ap, sym, ◌∙◌, Option-cases, eqb-cases, [], ℕ, zero, suc, ◌≤◌, ◌≡◌, refl, ◌≢◌, ◌⊎◌, inl, inr,
  Bool, List, ◌∷◌, length, get_elem?, set, Returns, Returns-if, drop, get_elem?-lt, arith, ◌<◌, not,
  ◌&&◌, ◌==◌, some,
}
use tnsparser.Wire.{pkt_type}
use tnsparser.Session.{Direction, SessKey, TnsSession, sess_key, sess_must_find_node}
use tnsparser.Session.Lookup.{IsMissing, Touched, at_head, behind, Taken, sess_must_find_node-cases}
use tnsparser.Tns.Types.{Done, tns_type_connect, tns_type_data}
use tnsparser.Tns.Handlers.{CJson}
use tnsparser.Tns.Outcome.{Outcome}
use tnsparser.Tns.Parse.{tns_protocol_parse}
use tnsparser.Tns.DataTotal.{tns_protocol_parse-data}
use tnsparser.Tns.Total.{tns_protocol_parse-Returns}
use tnsparser.Network.{Packet}
use tnsparser.Process.{mainprocess, sess_desc, process_packet, is_pushed}

get_elem?-Touched :
    (key : SessKey) (now i : ℕ) (s t : List TnsSession)
    → Touched key now i s t
    → Returns (get_elem? t i)
get_elem?-Touched key now zero s t (at_head e) = (_, refl)
get_elem?-Touched key now (suc i) s t (behind e h) = get_elem?-Touched key now i _ _ h

get_elem?-found :
    (key : SessKey) (now i : ℕ) (s : TnsSession) (rest t : List TnsSession)
    → Touched key now i (s ∷ rest) t ⊎ (IsMissing key (s ∷ rest) × Taken key i (s ∷ rest) t)
    → Returns (get_elem? t i)
get_elem?-found key now i s rest t (inl touched) = get_elem?-Touched key now i (s ∷ rest) t touched
get_elem?-found key now i s rest t (inr (missing, (first, e))) = rw (first, e) (_, refl)

-- How a packet that the parser answers, whatever the session, is processed to its end.
unfoldable pub Processes :
    CJson → (ℕ → Bool) → List TnsSession → ℕ → List ℕ → ℕ → SessKey → Direction → Type 0
Processes lib malloc g_sess_arry now pkt len key dir =
    (i : ℕ) × (table : List TnsSession) × (sess : TnsSession) × (d : Done) × (sess_must_find_node
        g_sess_arry key dir now
      ≡ some (i, table))
    × (get_elem? table i ≡ some sess)
    × Outcome pkt len (record sess { cur_dir = dir; cur_sess_desc = sess_desc key }) d
    × (mainprocess lib malloc g_sess_arry now pkt len key dir
        ≡ some (record { ret = d.code; table = set table i d.sess; out = d.out }))

pub mainprocess-Processes :
    (lib : CJson) (malloc : ℕ → Bool) (s : TnsSession) (rest : List TnsSession) (now : ℕ)
    (pkt : List ℕ) (len : ℕ) (key : SessKey) (dir : Direction)
    → ((sess : TnsSession)
        → (d : Done) × (tns_protocol_parse lib malloc pkt len sess ≡ some d)
          × Outcome pkt len sess d)
    → Processes lib malloc (s ∷ rest) now pkt len key dir
unfolding mainprocess Processes
mainprocess-Processes lib malloc s rest now pkt len key dir answers =
    let (i, table, e, how) = sess_must_find_node-cases s rest key dir now in
    let (sess, f) = get_elem?-found (sess_key key dir) now i s rest table how in
    let (d, g, outcome) = answers (record sess { cur_dir = dir; cur_sess_desc = sess_desc key }) in
    (i, table, sess, d, e, f, outcome, rw (e, f, g) refl)

-- A packet of any type but connect and data, of which 40 bytes can be read, is processed to its end
-- on a table with a slot: the session that sess_must_find_node gives takes the direction and the text
-- of the packet's key, the parser answers the packet in one of the three ways of Outcome, and its
-- session stands in the slot afterwards.
pub mainprocess-Outcome :
    (lib : CJson) (malloc : ℕ → Bool) (s : TnsSession) (rest : List TnsSession) (now : ℕ)
    (pkt : List ℕ) (len : ℕ) (key : SessKey) (dir : Direction) (type : ℕ)
    → 40 ≤ length pkt
    → pkt_type pkt ≡ some type
    → type ≢ tns_type_connect
    → type ≢ tns_type_data
    → (i : ℕ) × (table : List TnsSession) × (sess : TnsSession) × (d : Done) × (sess_must_find_node
          (s ∷ rest)
          key
          dir
          now
        ≡ some (i, table))
      × (get_elem? table i ≡ some sess)
      × Outcome pkt len (record sess { cur_dir = dir; cur_sess_desc = sess_desc key }) d
      × (mainprocess lib malloc (s ∷ rest) now pkt len key dir
          ≡ some (record { ret = d.code; table = set table i d.sess; out = d.out }))
unfolding Processes
mainprocess-Outcome lib malloc s rest now pkt len key dir type room typed no_connect no_data =
    mainprocess-Processes lib malloc s rest now pkt len key dir
      λ sess. tns_protocol_parse-Returns lib malloc pkt len sess type room typed no_connect no_data

-- A packet that can make the parser read outside it or follow a null pointer: a connect packet, or a
-- data packet with no two zero bytes in a row in the buffer that lie eight bytes or more behind its
-- end. The handlers count the whole length from behind the head, so eight bytes too far.
abbrev pub Risky : Packet → Type 0
Risky p =
    (pkt_type (drop p.data_at p.buf) ≡ some tns_type_connect)
    ⊎ ((pkt_type (drop p.data_at p.buf) ≡ some tns_type_data)
        × ((k : ℕ)
            → p.len ≤ k
            → get_elem? (drop p.data_at p.buf) (8 + k) ≡ some 0
            → get_elem? (drop p.data_at p.buf) (8 + suc k) ≢ some 0))

process_packet-Processes :
    (lib : CJson) (malloc : ℕ → Bool) (table : List TnsSession) (now : ℕ) (p : Packet)
    → Processes lib malloc table now (drop p.data_at p.buf) p.len p.key p.dir
    → Returns (process_packet lib malloc table (now, p))
unfolding process_packet Processes
process_packet-Processes lib malloc table now p (i, table', sess, d, e, f, outcome, ran) =
    Returns-if (not (p.len == 0) && is_pushed p.action) _ _ (rw ran (_, refl)) (_, refl)

-- On a table with a slot a packet whose payload can be read for 40 bytes is handled, or it is one of
-- these.
pub process_packet-Returns :
    (lib : CJson) (malloc : ℕ → Bool) (table : List TnsSession) (now : ℕ) (p : Packet)
    → 0 < length table
    → 40 ≤ length (drop p.data_at p.buf)
    → Returns (process_packet lib malloc table (now, p)) ⊎ Risky p
unfolding pkt_type
process_packet-Returns lib malloc [] now p slot room = absurd (omega arith)
process_packet-Returns lib malloc (s ∷ rest) now p slot room =
    let (type, typed) = get_elem?-lt (drop p.data_at p.buf) 4 (omega arith) in
    elim (eqb-cases type tns_type_connect) [
      | inl connect ↦ inr (inl (typed ∙ ap some connect))
      | inr no_connect ↦ elim (eqb-cases type tns_type_data) [
        | inl data_type ↦ data_packet (typed ∙ ap some data_type)
        | inr no_data ↦ inl (
            process_packet-Processes lib malloc (s ∷ rest) now p (
              mainprocess-Processes lib malloc s rest now (drop p.data_at p.buf) p.len p.key p.dir
                λ sess.
                  tns_protocol_parse-Returns lib malloc (drop p.data_at p.buf) p.len sess type room
                    typed no_connect no_data))
      ]
    ]
  where
    data_packet :
        pkt_type (drop p.data_at p.buf) ≡ some tns_type_data
        → Returns (process_packet lib malloc (s ∷ rest) (now, p)) ⊎ Risky p
    data_packet typed = elim (Option-cases (process_packet lib malloc (s ∷ rest) (now, p))) [
      | inr ran ↦ inl ran
      | inl fails ↦ inr (
          inr (
            typed,
            λ k far end end_next.
                let (table', ran) = process_packet-Processes lib malloc (s ∷ rest) now p (
                  mainprocess-Processes lib malloc s rest now (drop p.data_at p.buf) p.len p.key
                    p.dir
                    λ sess.
                      tns_protocol_parse-data (drop p.data_at p.buf) p.len k far end end_next lib
                        malloc sess typed) in
                cc (sym ran ∙ fails),
          ))
    ]
