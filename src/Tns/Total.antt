-- ===== src/Tns/Total.antt =====
-- Which packets the parser is sure to answer.
use tnsparser.Base.{
  ℕ, suc, ◌+◌, ◌-◌, ◌≤◌, ◌<◌, ◌≡◌, refl, sym, ◌≢◌, ◌⊎◌, ◌∙◌, true, false, inl, inr, Bool, Option,
  none, some, List, [], ◌∷◌, arith, leb, ◌==◌, if◌then◌else◌, length, length-drop, drop, All,
  Bool-cases, eqb→eq, get_elem?-lt, eq_of_some, subst, Returns, Returns->>=, Returns-if,
  Ensures-Returns,
}
use tnsparser.Util.{debug_hex_println, g_hexdump_enable}
use tnsparser.Wire.{
  load_ushort, load_ntohs, accept_ver, accept_data_len, refuse_data_len, pkt_len, pkt_type,
  pkt_data,
}
use tnsparser.Wire.Offsets.{tns_head_len}
use tnsparser.Session.{TnsSession}
use tnsparser.Tns.Types.{Done, tns_type_connect, tns_type_data}
use tnsparser.Tns.Table.{PktHandle}
use tnsparser.Tns.Handlers.{CJson, tns_accept_handle, tns_refuse_handle, tns_resend_handle}
use tnsparser.Tns.Parse.{
  PktFunc, packet_match, call_packet, packet_handle, msg_type_handles, tns_protocol_parse,
}
use tnsparser.Tns.Outcome.{Outcome, tns_protocol_parse-Outcome}

pub load_ntohs-Returns : (mem : List ℕ) (i : ℕ) → i + 1 < length mem → Returns (load_ntohs mem i)
unfolding load_ntohs load_ushort
load_ntohs-Returns mem i h =
    let (low, e) = get_elem?-lt mem i (omega arith) in
    let (high, f) = get_elem?-lt mem (suc i) (omega arith) in rw (e, f) (_, refl)

data_field-Returns :
    (pkt : List ℕ) (i : ℕ) → i + 9 < length pkt → Returns (load_ntohs (pkt_data pkt) i)
data_field-Returns pkt i h = load_ntohs-Returns (pkt_data pkt) i (omega (arith, length-drop 8 pkt))

pub no_dump : (ptr : List ℕ) (len : ℕ) → Returns (debug_hex_println g_hexdump_enable ptr len)
unfolding debug_hex_println
no_dump ptr len = (_, refl)

tns_accept_handle-Returns :
    (pkt : List ℕ) (len : ℕ) (s : TnsSession)
    → 40 ≤ length pkt
    → Returns (tns_accept_handle pkt len s)
unfolding tns_accept_handle accept_ver accept_data_len
tns_accept_handle-Returns pkt len s room =
    Returns-if (leb len tns_head_len) _ _ (_, refl)
      (Returns->>= (debug_hex_println g_hexdump_enable (pkt_data pkt) (len - tns_head_len)) _
        (no_dump (pkt_data pkt) (len - tns_head_len))
        λ _ _.
          Returns->>= (load_ntohs (pkt_data pkt) 0) _ (data_field-Returns pkt 0 (omega arith))
            λ version _.
              Returns->>= (load_ntohs (pkt_data pkt) 30) _ (data_field-Returns pkt 30 (omega arith))
                λ _ _. (_, refl))

tns_refuse_handle-Returns :
    (pkt : List ℕ) (len : ℕ) (s : TnsSession)
    → 40 ≤ length pkt
    → Returns (tns_refuse_handle pkt len s)
unfolding tns_refuse_handle refuse_data_len
tns_refuse_handle-Returns pkt len s room =
    Returns-if (leb len tns_head_len) _ _ (_, refl)
      (Returns->>= (debug_hex_println g_hexdump_enable (pkt_data pkt) (len - tns_head_len)) _
        (no_dump (pkt_data pkt) (len - tns_head_len))
        λ _ _.
          Returns->>= (load_ntohs pkt 2) _ (load_ntohs-Returns pkt 2 (omega arith))
            λ _ _. (_, refl))

tns_resend_handle-Returns :
    (pkt : List ℕ) (len : ℕ) (s : TnsSession) → Returns (tns_resend_handle pkt len s)
unfolding tns_resend_handle
tns_resend_handle-Returns pkt len s = (_, refl)

module _ (lib : CJson) (malloc : ℕ → Bool) (pkt : List ℕ) (len : ℕ) (s : TnsSession)
    (type : ℕ) where
  -- An entry for the type has a function that answers the packet, or none.
  abbrev pub Answers : ℕ → Option PktFunc → Type 0
  Answers t none = Unit {0}
  Answers t (some f) = (t ≢ type) ⊎ Returns (call_packet lib malloc f pkt len s)

  pub packet_handle-Returns :
      (ph : List (PktHandle PktFunc))
      → All (λ h. Answers h.type h.func) ph
      → Returns (packet_handle lib malloc ph type pkt len s)
  unfolding packet_handle packet_match
  packet_handle-Returns [] hs = (_, refl)
  packet_handle-Returns (h ∷ ph) (here, hs) =
      dispatch h.func here (Bool-cases (h.type == type)) (packet_handle-Returns ph hs)
    where
      rest : Option Done
      rest = packet_handle lib malloc ph type pkt len s

      dispatch :
          (f : Option PktFunc)
          → Answers h.type f
          → (((h.type == type) ≡ true) ⊎ ((h.type == type) ≡ false))
          → Returns rest
          → Returns (elim (if h.type == type then f else none) [
            | some func ↦ call_packet lib malloc func pkt len s
            | none ↦ rest
          ])
      dispatch none here (inl e) later = rw e later
      dispatch (some f) (inl other) (inl e) later = absurd (other (eqb→eq h.type type e))
      dispatch (some f) (inr answer) (inl e) later = rw e answer
      dispatch f here (inr e) later = rw e later

  table-Answers :
      40 ≤ length pkt
      → type ≢ tns_type_connect
      → type ≢ tns_type_data
      → All (λ h. Answers h.type h.func) msg_type_handles
  unfolding call_packet
  table-Answers room no_connect no_data = (
    inl (λ e. no_connect (sym e)),
    (
      inr (tns_accept_handle-Returns pkt len s room),
      (
        tt,
        (
          inr (tns_refuse_handle-Returns pkt len s room),
          (tt, (inl (λ e. no_data (sym e)), types_from_7)),
        ),
      ),
    ),
  )
    where
      types_from_7 : All (λ h. Answers h.type h.func) (drop 6 msg_type_handles)
      types_from_7 =
          (tt, (tt, (tt, (tt, (inr (tns_resend_handle-Returns pkt len s), (tt, (tt, (tt, tt))))))))

-- A packet of any type but connect and data, of which 40 bytes can be read, is answered, whatever
-- length it names or is given, in one of the three ways.
pub tns_protocol_parse-Returns :
    (lib : CJson) (malloc : ℕ → Bool) (pkt : List ℕ) (len : ℕ) (s : TnsSession) (type : ℕ)
    → 40 ≤ length pkt
    → pkt_type pkt ≡ some type
    → type ≢ tns_type_connect
    → type ≢ tns_type_data
    → (d : Done) × (tns_protocol_parse lib malloc pkt len s ≡ some d) × Outcome pkt len s d
unfolding tns_protocol_parse pkt_len
tns_protocol_parse-Returns lib malloc pkt len s type room typed no_connect no_data =
    Ensures-Returns (Outcome pkt len s) (tns_protocol_parse lib malloc pkt len s)
      (tns_protocol_parse-Outcome lib malloc pkt len s)
      (Returns->>= (load_ntohs pkt 0) _ (load_ntohs-Returns pkt 0 (omega arith)) λ named _.
        Returns-if (len == named) _ _
          (Returns->>= (pkt_type pkt) _ (type, typed)
            λ type' e.
              subst (λ t. Returns (packet_handle lib malloc msg_type_handles t pkt len s))
                (eq_of_some (sym typed ∙ e))
                (packet_handle-Returns lib malloc pkt len s type msg_type_handles
                  (table-Answers lib malloc pkt len s type room no_connect no_data)))
          (_, refl))
