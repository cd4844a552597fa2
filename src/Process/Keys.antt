-- ===== src/Process/Keys.antt =====
-- Which keys the sessions of the table have.
use tnsparser.Base.{
  ℕ, zero, suc, ◌≡◌, refl, sym, subst, eq_of_some, Bool, ap, ◌∙◌, ◌⊎◌, inl, inr, some, List, [],
  ◌∷◌, map, get_elem?, set, drop, All, Ensures, Ensures->>=_eq, Ensures-seq, Ensures-mono,
  Ensures-if, not, ◌==◌, ◌&&◌,
}
use tnsparser.Session.{Direction, TnsSession, SessKey, sess_must_find_node, sess_key}
use tnsparser.Session.Lookup.{
  IsMissing, no_slot, Touched, at_head, behind, Taken, sess_must_find_node-cases,
}
use tnsparser.Tns.Types.{Done}
use tnsparser.Tns.Handlers.{CJson}
use tnsparser.Tns.Parse.{tns_protocol_parse}
use tnsparser.Tns.Handled.{key-Handled}
use tnsparser.Tns.Outcome.{Outcome, wrong_length, wrong_type, handled, tns_protocol_parse-Outcome}
use tnsparser.Network.{Packet}
use tnsparser.Process.{Processed, is_pushed, mainprocess, process_packet, process_all, sess_desc}

abbrev pub keys : List TnsSession → List SessKey
keys table = map (λ s. s.key) table

pub keys-Touched :
    (key : SessKey) (now i : ℕ) (s t : List TnsSession) → Touched key now i s t → keys t ≡ keys s
keys-Touched key now zero s t (at_head e) = refl
keys-Touched key now (suc i) s t (behind {s = x} e h) =
    ap (◌∷◌ x.key) (keys-Touched key now i _ _ h)

-- A write that keeps the slot's key.
pub keys-set :
    (table : List TnsSession) (i : ℕ) (old new : TnsSession)
    → get_elem? table i ≡ some old
    → new.key ≡ old.key
    → keys (set table i new) ≡ keys table
keys-set [] i old new e k = refl
keys-set (s ∷ rest) zero old new e k =
    ap (λ x. x ∷ map (λ t. t.key) rest) (k ∙ ap (λ t. t.key) (sym (eq_of_some e)))
keys-set (s ∷ rest) (suc i) old new e k = ap (◌∷◌ s.key) (keys-set rest i old new e k)

pub key-parse :
    (lib : CJson) (malloc : ℕ → Bool) (pkt : List ℕ) (len : ℕ) (s : TnsSession)
    → Ensures (λ (d : Done). d.sess.key ≡ s.key) (tns_protocol_parse lib malloc pkt len s)
key-parse lib malloc pkt len s =
    Ensures-mono (Outcome pkt len s) (λ (d : Done). d.sess.key ≡ s.key) _ key_of
      (tns_protocol_parse-Outcome lib malloc pkt len s)
  where
    key_of : (d : Done) → Outcome pkt len s d → d.sess.key ≡ s.key
    key_of d (wrong_length n e ne r) = rw r
    key_of d (wrong_type t e f u r) = rw r
    key_of d (handled t e f h) = key-Handled pkt len t s d h

module _ (P : SessKey → Type 0) where
  -- Finding a session leaves keys of which all hold, if it holds of the connection's key as well.
  find-keys :
      (table : List TnsSession) (skey : SessKey) (dir : Direction) (now : ℕ)
      → All P (keys table)
      → P (sess_key skey dir)
      → Ensures
          (λ (r : ℕ × List TnsSession). All P (keys r.1))
          (sess_must_find_node table skey dir now)
  find-keys [] skey dir now h p = rw (no_slot skey dir now) tt
  find-keys (s ∷ rest) skey dir now h p =
      let (i, table', e, how) = sess_must_find_node-cases s rest skey dir now in
      rw e (kept i table' how)
    where
      kept :
          (i : ℕ) (table' : List TnsSession)
          → Touched (sess_key skey dir) now i (s ∷ rest) table'
            ⊎ (IsMissing (sess_key skey dir) (s ∷ rest)
                × Taken (sess_key skey dir) i (s ∷ rest) table')
          → All P (keys table')
      kept i table' (inl touched) =
          subst (All P) (sym (keys-Touched (sess_key skey dir) now i (s ∷ rest) table' touched)) h
      kept i table' (inr (missing, (first, e))) = rw e (p, h.1)

  mainprocess-keys :
      (lib : CJson) (malloc : ℕ → Bool) (table : List TnsSession) (now : ℕ) (pkt : List ℕ) (len : ℕ)
      (key : SessKey) (dir : Direction)
      → All P (keys table)
      → P (sess_key key dir)
      → Ensures
          (λ (r : Processed). All P (keys r.table))
          (mainprocess lib malloc table now pkt len key dir)
  unfolding mainprocess
  mainprocess-keys lib malloc table now pkt len key dir h p =
      Ensures-seq (λ (r : ℕ × List TnsSession). All P (keys r.1))
        (λ (r : Processed). All P (keys r.table)) _ _ (find-keys table key dir now h p)
        λ (i, table') e h'.
          Ensures->>=_eq (λ (r : Processed). All P (keys r.table)) (get_elem? table' i) _
            λ sess found.
              Ensures-seq (λ (d : Done). d.sess.key ≡ sess.key)
                (λ (r : Processed). All P (keys r.table)) _ _
                (key-parse lib malloc pkt len
                  (record sess { cur_dir = dir; cur_sess_desc = sess_desc key }))
                λ done f same. subst (All P) (sym (keys-set table' i sess done.sess found same)) h'

  -- Whatever holds of the keys in the table and of the keys of the packets' connections holds of the
  -- keys in the table after the packets.
  pub process_all-keys :
      (lib : CJson) (malloc : ℕ → Bool) (table : List TnsSession) (pkts : List (ℕ × Packet))
      → All P (keys table)
      → All (λ r. P (sess_key r.1.key r.1.dir)) pkts
      → Ensures (λ (t : List TnsSession). All P (keys t)) (process_all lib malloc table pkts)
  unfolding process_all process_packet
  process_all-keys lib malloc table [] h ps = h
  process_all-keys lib malloc table ((now, pkt) ∷ rest) h (p, ps) =
      Ensures-seq (λ (t : List TnsSession). All P (keys t))
        (λ (t : List TnsSession). All P (keys t)) (process_packet lib malloc table (now, pkt)) _
        (Ensures-if (λ (t : List TnsSession). All P (keys t))
          (not (pkt.len == 0) && is_pushed pkt.action) _ (some table)
          (Ensures-seq (λ (r : Processed). All P (keys r.table))
            (λ (t : List TnsSession). All P (keys t)) _ _
            (mainprocess-keys lib malloc table now (drop pkt.data_at pkt.buf) pkt.len pkt.key
              pkt.dir h p)
            λ done e h'. h')
          h)
        λ table' e h'. process_all-keys lib malloc table' rest h' ps
