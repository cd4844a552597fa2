-- ===== src/Process/Size.antt =====
-- The session table keeps its size.
use tnsparser.Base.{
  ℕ, zero, suc, ◌≡◌, refl, ap, ◌∙◌, subst, Bool, ◌⊎◌, inl, inr, some, List, [], ◌∷◌, length,
  length-set, get_elem?, drop, Ensures, Ensures->>=, Ensures-seq, Ensures-if, not, ◌==◌, ◌&&◌,
}
use tnsparser.Session.{Direction, TnsSession, SessKey, sess_must_find_node, sess_key}
use tnsparser.Session.Lookup.{
  IsMissing, no_slot, Touched, at_head, behind, Taken, sess_must_find_node-cases,
}
use tnsparser.Tns.Handlers.{CJson}
use tnsparser.Tns.Parse.{tns_protocol_parse}
use tnsparser.Network.{Packet}
use tnsparser.Process.{Processed, is_pushed, mainprocess, process_packet, process_all, sess_desc}

-- A table of this size.
unfoldable Sized : ℕ → List TnsSession → Type 0
Sized n table = length table ≡ n

length-Touched :
    (key : SessKey) (now i : ℕ) (s t : List TnsSession)
    → Touched key now i s t
    → length t ≡ length s
length-Touched key now zero s t (at_head e) = refl
length-Touched key now (suc i) s t (behind e h) = ap suc (length-Touched key now i _ _ h)

length-sess_must_find_node :
    (table : List TnsSession) (skey : SessKey) (dir : Direction) (now : ℕ)
    → Ensures
        (λ (r : ℕ × List TnsSession). Sized (length table) r.1)
        (sess_must_find_node table skey dir now)
unfolding Sized
length-sess_must_find_node [] skey dir now = rw (no_slot skey dir now) tt
length-sess_must_find_node (s ∷ rest) skey dir now =
    let (i, table', e, how) = sess_must_find_node-cases s rest skey dir now in
    rw e (kept i table' how)
  where
    kept :
        (i : ℕ) (table' : List TnsSession)
        → Touched (sess_key skey dir) now i (s ∷ rest) table'
          ⊎ (IsMissing (sess_key skey dir) (s ∷ rest)
              × Taken (sess_key skey dir) i (s ∷ rest) table')
        → length table' ≡ length (s ∷ rest)
    kept i table' (inl touched) = length-Touched (sess_key skey dir) now i (s ∷ rest) table' touched
    kept i table' (inr (missing, (first, e))) = rw e refl

module _ (lib : CJson) (malloc : ℕ → Bool) where
  length-mainprocess :
      (table : List TnsSession) (now : ℕ) (pkt : List ℕ) (len : ℕ) (key : SessKey) (dir : Direction)
      → Ensures
          (λ (r : Processed). Sized (length table) r.table)
          (mainprocess lib malloc table now pkt len key dir)
  unfolding mainprocess Sized
  length-mainprocess table now pkt len key dir =
      Ensures-seq (λ (r : ℕ × List TnsSession). Sized (length table) r.1)
        (λ (r : Processed). Sized (length table) r.table) _ _
        (length-sess_must_find_node table key dir now)
        λ (i, table') e size.
          Ensures->>= (λ (r : Processed). Sized (length table) r.table) (get_elem? table' i) _
            λ sess.
              Ensures->>= (λ (r : Processed). Sized (length table) r.table)
                (tns_protocol_parse lib malloc pkt len
                  (record sess { cur_dir = dir; cur_sess_desc = sess_desc key }))
                _ λ done. length-set table' i done.sess ∙ size

  length-process_packet :
      (table : List TnsSession) (x : ℕ × Packet)
      → Ensures (Sized (length table)) (process_packet lib malloc table x)
  unfolding process_packet Sized
  length-process_packet table (now, pkt) =
      Ensures-if (Sized (length table)) (not (pkt.len == 0) && is_pushed pkt.action) _ (some table)
        (Ensures-seq (λ (r : Processed). Sized (length table) r.table) (Sized (length table)) _ _
          (length-mainprocess table now (drop pkt.data_at pkt.buf) pkt.len pkt.key pkt.dir)
          λ done e h. h)
        refl

  pub length-process_all :
      (table : List TnsSession) (pkts : List (ℕ × Packet)) (table' : List TnsSession)
      → process_all lib malloc table pkts ≡ some table'
      → length table' ≡ length table
  unfolding process_all Sized
  length-process_all table pkts table' e =
      subst (Ensures (Sized (length table))) e (sized (length table) table pkts refl)
    where
      sized :
          (n : ℕ) (t : List TnsSession) (ps : List (ℕ × Packet))
          → length t ≡ n
          → Ensures (Sized n) (process_all lib malloc t ps)
      sized n t [] h = h
      sized n t (x ∷ rest) h =
          Ensures-seq (Sized (length t)) (Sized n) (process_packet lib malloc t x) _
            (length-process_packet t x) λ t' e' h'. sized n t' rest (h' ∙ h)
