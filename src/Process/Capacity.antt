-- ===== src/Process/Capacity.antt =====
-- How many sessions the table ever holds.
use tnsparser.Base.{
  ℕ, zero, suc, ◌≡◌, ◌≢◌, refl, sym, subst, ◌∙◌, ap, Bool, ◌⊎◌, inl, inr, some, List, [], ◌∷◌,
  length, get_elem?, set, drop, replicate, All, Ensures, Ensures->>=_eq, Ensures-seq, Ensures-if,
  not, ◌==◌, ◌&&◌,
}
use tnsparser.Session.{
  Direction, max_sess_node, TnsSession, SessKey, zero_key, zero_session, sess_must_find_node,
  sess_key, sess_init,
}
use tnsparser.Session.Init.{sess_init-replicate}
use tnsparser.Session.Lookup.{
  IsMissing, no_slot, Touched, at_head, behind, Taken, same_key→eq, sess_must_find_node-cases,
}
use tnsparser.Tns.Handlers.{CJson}
use tnsparser.Tns.Parse.{tns_protocol_parse}
use tnsparser.Network.{Packet}
use tnsparser.Process.{Processed, is_pushed, mainprocess, process_packet, process_all, sess_desc}

abbrev Cleared : List TnsSession → Type 0
Cleared = All (λ s. s ≡ zero_session)

-- Every slot but the first is as it was cleared.
abbrev pub OneInUse : List TnsSession → Type 0
OneInUse table = Cleared (drop 1 table)

-- The key that the packet's connection has in the table is not the one of a cleared slot.
abbrev pub HasKey : ℕ × Packet → Type 0
HasKey (now, pkt) = sess_key pkt.key pkt.dir ≢ zero_key

-- Only the key of a cleared slot is found in one.
Touched-Cleared :
    (key : SessKey) (now i : ℕ) (table table' : List TnsSession)
    → Cleared table
    → Touched key now i table table'
    → key ≡ zero_key
Touched-Cleared key now zero table table' h (at_head {s} e) =
    sym (same_key→eq s.key key e) ∙ ap (λ t. t.key) h.0
Touched-Cleared key now (suc i) table table' h (behind e touched) =
    Touched-Cleared key now i _ _ h.1 touched

-- A session that is found is the first one, with the other slots cleared as before.
abbrev FoundFirst : ℕ × List TnsSession → Type 0
FoundFirst (i, table) = (i ≡ 0) × OneInUse table

Touched-FoundFirst :
    (key : SessKey) (now i : ℕ) (s : TnsSession) (rest table' : List TnsSession)
    → key ≢ zero_key
    → Cleared rest
    → Touched key now i (s ∷ rest) table'
    → FoundFirst (i, table')
Touched-FoundFirst key now zero s rest table' named h (at_head e) = (refl, h)
Touched-FoundFirst key now (suc i) s rest table' named h (behind e touched) =
    absurd (named (Touched-Cleared key now i rest _ h touched))

find-FoundFirst :
    (table : List TnsSession) (skey : SessKey) (dir : Direction) (now : ℕ)
    → sess_key skey dir ≢ zero_key
    → OneInUse table
    → Ensures FoundFirst (sess_must_find_node table skey dir now)
find-FoundFirst [] skey dir now named h = rw (no_slot skey dir now) tt
find-FoundFirst (s ∷ rest) skey dir now named h =
    let (i, table', e, how) = sess_must_find_node-cases s rest skey dir now in
    rw e (first i table' how)
  where
    first :
        (i : ℕ) (table' : List TnsSession)
        → Touched (sess_key skey dir) now i (s ∷ rest) table'
          ⊎ (IsMissing (sess_key skey dir) (s ∷ rest)
              × Taken (sess_key skey dir) i (s ∷ rest) table')
        → FoundFirst (i, table')
    first i table' (inl touched) =
        Touched-FoundFirst (sess_key skey dir) now i s rest table' named h touched
    first i table' (inr (missing, (at, e))) = (at, subst OneInUse (sym e) h)

set_first-OneInUse :
    (table : List TnsSession) (s : TnsSession) → OneInUse table → OneInUse (set table 0 s)
set_first-OneInUse [] s h = h
set_first-OneInUse (t ∷ rest) s h = h

mainprocess-OneInUse :
    (lib : CJson) (malloc : ℕ → Bool) (table : List TnsSession) (now : ℕ) (pkt : List ℕ) (len : ℕ)
    (key : SessKey) (dir : Direction)
    → sess_key key dir ≢ zero_key
    → OneInUse table
    → Ensures
        (λ (r : Processed). OneInUse r.table)
        (mainprocess lib malloc table now pkt len key dir)
unfolding mainprocess
mainprocess-OneInUse lib malloc table now pkt len key dir named h =
    Ensures-seq FoundFirst (λ (r : Processed). OneInUse r.table) _ _
      (find-FoundFirst table key dir now named h)
      λ (i, table') e (first, h').
        Ensures->>=_eq (λ (r : Processed). OneInUse r.table) (get_elem? table' i) _
          λ sess found.
            Ensures->>=_eq (λ (r : Processed). OneInUse r.table)
              (tns_protocol_parse lib malloc pkt len
                (record sess { cur_dir = dir; cur_sess_desc = sess_desc key }))
              _
              λ done f.
                subst (λ j. OneInUse (set table' j done.sess)) (sym first)
                  (set_first-OneInUse table' done.sess h')

process_packet-OneInUse :
    (lib : CJson) (malloc : ℕ → Bool) (table : List TnsSession) (pkt : ℕ × Packet)
    → HasKey pkt
    → OneInUse table
    → Ensures OneInUse (process_packet lib malloc table pkt)
unfolding process_packet
process_packet-OneInUse lib malloc table (now, pkt) named h =
    Ensures-if OneInUse (not (pkt.len == 0) && is_pushed pkt.action) _ (some table)
      (Ensures-seq (λ (r : Processed). OneInUse r.table) OneInUse _ _
        (mainprocess-OneInUse lib malloc table now (drop pkt.data_at pkt.buf) pkt.len pkt.key
          pkt.dir named h)
        λ done e h'. h')
      h

process_all-OneInUse :
    (lib : CJson) (malloc : ℕ → Bool) (table : List TnsSession) (pkts : List (ℕ × Packet))
    → All HasKey pkts
    → OneInUse table
    → Ensures OneInUse (process_all lib malloc table pkts)
unfolding process_all
process_all-OneInUse lib malloc table [] named h = h
process_all-OneInUse lib malloc table (pkt ∷ rest) named h =
    Ensures-seq OneInUse OneInUse _ _ (process_packet-OneInUse lib malloc table pkt named.0 h)
      λ table' e h'. process_all-OneInUse lib malloc table' rest named.1 h'

-- Whatever packets arrive, in whatever order, after sess_init the table of 32 slots never holds
-- more than one session, if all of them are processed without undefined behaviour and none is of
-- the connection whose addresses and ports are all 0, the key of a cleared slot: every slot but the
-- first stays wholly as sess_init cleared it.
pub process_all-sess_init-OneInUse :
    (lib : CJson) (malloc : ℕ → Bool) (table : List TnsSession) (pkts : List (ℕ × Packet))
    → length table ≡ max_sess_node
    → All HasKey pkts
    → Ensures OneInUse (process_all lib malloc (sess_init table) pkts)
process_all-sess_init-OneInUse lib malloc table pkts e named =
    process_all-OneInUse lib malloc (sess_init table) pkts named
      (rw (sess_init-replicate table e) cleared)
  where
    zeros : (n : ℕ) → Cleared (replicate n zero_session)
    zeros zero = tt
    zeros (suc n) = (refl, zeros n)

    cleared : OneInUse (replicate max_sess_node zero_session)
    cleared = zeros 31
