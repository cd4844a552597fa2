-- ===== src/Tns/Outcome.antt =====
-- What TNS_protocol_parse does to a session, for every packet.
use tnsparser.Base.{
  ℕ, ◌≡◌, refl, ◌≢◌, ◌⊎◌, inl, inr, Bool, Option, none, some, List, [], ◌∷◌, ◌==◌, if◌then◌else◌,
  Ensures, All, Ensures-mono, Ensures->>=_eq, Ensures-if_eq, eqb_self, sym, Bool-cases, eqb→eq,
  subst, drop, true, false,
}
use tnsparser.Wire.{pkt_type, pkt_len}
use tnsparser.Session.{TnsSession}
use tnsparser.Tns.Types.{Done, code_pkt_len, code_pkt_type}
use tnsparser.Tns.Table.{PktHandle}
use tnsparser.Tns.Handlers.{CJson}
use tnsparser.Tns.Handled.{
  Handled, accept-Handled, refuse-Handled, resend-Handled, data-Handled, connect-Handled,
}
use tnsparser.Tns.Parse.{
  PktFunc, call_packet, packet_match, packet_handle, msg_type_handles, tns_protocol_parse,
}

-- No entry of the table has a function for the type.
abbrev pub IsUnhandled : List (PktHandle PktFunc) → ℕ → Type 0
IsUnhandled ph type = All (λ h. packet_match h type ≡ none) ph

-- What packet_handle does with the entries of a table.
data Searched (pkt : List ℕ) (len : ℕ) (ph : List (PktHandle PktFunc)) (type : ℕ) (s : TnsSession)
    (d : Done) : Type 0 where
  found : Handled pkt len type s d → Searched pkt len ph type s d
  missed :
      IsUnhandled ph type
      → d ≡ record { code = code_pkt_type; sess = s; out = [] }
      → Searched pkt len ph type s d

passed_entry :
    (pkt : List ℕ) (len : ℕ) (h : PktHandle PktFunc) (ph : List (PktHandle PktFunc)) (type : ℕ)
    (s : TnsSession)
    → packet_match h type ≡ none
    → (d : Done) → Searched pkt len ph type s d
    → Searched pkt len (h ∷ ph) type s d
passed_entry pkt len h ph type s e d (found x) = found x
passed_entry pkt len h ph type s e d (missed u x) = missed (e, u) x

-- The three ways in which a call of TNS_protocol_parse ends.
pub data Outcome (pkt : List ℕ) (len : ℕ) (s : TnsSession) (d : Done) : Type 0 where
  wrong_length :
      (named : ℕ)
      → pkt_len pkt ≡ some named
      → len ≢ named
      → d ≡ record { code = code_pkt_len; sess = s; out = [] }
      → Outcome pkt len s d
  wrong_type :
      (type : ℕ)
      → pkt_len pkt ≡ some len
      → pkt_type pkt ≡ some type
      → IsUnhandled msg_type_handles type
      → d ≡ record { code = code_pkt_type; sess = s; out = [] }
      → Outcome pkt len s d
  handled :
      (type : ℕ)
      → pkt_len pkt ≡ some len
      → pkt_type pkt ≡ some type
      → Handled pkt len type s d
      → Outcome pkt len s d

module _ (lib : CJson) (malloc : ℕ → Bool) where
  -- The function of an entry handles packets of the entry's type.
  abbrev HandlesItsType : PktHandle PktFunc → Type 0
  HandlesItsType h = elim h.func [
    | none ↦ Unit {0}
    | some f ↦
        (pkt : List ℕ) (len : ℕ) (s : TnsSession)
        → Ensures (Handled pkt len h.type s) (call_packet lib malloc f pkt len s)
  ]

  handles : All HandlesItsType msg_type_handles
  unfolding call_packet
  handles = (
    connect-Handled lib malloc,
    (accept-Handled, (tt, (refuse-Handled, (tt, (data-Handled, types_from_7))))),
  )
    where
      types_from_7 : All HandlesItsType (drop 6 msg_type_handles)
      types_from_7 = (tt, (tt, (tt, (tt, (resend-Handled, (tt, (tt, (tt, tt))))))))

  packet_handle-Searched :
      (ph : List (PktHandle PktFunc)) (type : ℕ) (pkt : List ℕ) (len : ℕ) (s : TnsSession)
      → All HandlesItsType ph
      → Ensures (Searched pkt len ph type s) (packet_handle lib malloc ph type pkt len s)
  unfolding packet_handle packet_match
  packet_handle-Searched [] type pkt len s hs = missed tt refl
  packet_handle-Searched (h ∷ ph) type pkt len s (here, hs) =
      dispatch h.func here (Bool-cases (h.type == type))
        (packet_handle-Searched ph type pkt len s hs)
    where
      rest : Option Done
      rest = packet_handle lib malloc ph type pkt len s

      dispatch :
          (f : Option PktFunc)
          → HandlesItsType (record h { func = f })
          → (((h.type == type) ≡ true) ⊎ ((h.type == type) ≡ false))
          → Ensures (Searched pkt len ph type s) rest
          → Ensures
              (Searched pkt len (record h { func = f } ∷ ph) type s)
              (elim (if h.type == type then f else none) [
                | some func ↦ call_packet lib malloc func pkt len s
                | none ↦ rest
              ])
      dispatch none here (inl e) later = rw e (
          Ensures-mono (Searched pkt len ph type s) _ rest
            (passed_entry pkt len (record h { func = none }) ph type s (rw e)) later)
      dispatch (some f) here (inl e) later = rw e (
          Ensures-mono (Handled pkt len type s) _ (call_packet lib malloc f pkt len s) (λ d. found)
            (subst (λ t. Ensures (Handled pkt len t s) (call_packet lib malloc f pkt len s))
              (eqb→eq h.type type e) (here pkt len s)))
      dispatch f here (inr e) later = rw e (
          Ensures-mono (Searched pkt len ph type s) _ rest
            (passed_entry pkt len (record h { func = f }) ph type s (rw e)) later)

  -- Whatever the packet holds, a call of TNS_protocol_parse that reads nothing outside the memory
  -- and follows no null pointer ends in one of these ways. A packet of another length than the
  -- caller names, or of a type with no handler in the table, is answered by its error code, changes
  -- nothing and prints nothing. A packet of a type with one is answered by 0: one of at most eight
  -- bytes, a resend packet and a connect packet without a text change nothing and print nothing; a
  -- longer accept packet sets its version and the accept state, a longer refuse packet the refuse
  -- state, and a connect packet with a text its two versions and the connect state, each of them
  -- nothing else; a longer data packet sets the data state, which is all up to twelve bytes, and
  -- beyond that what the handler of its data id makes of the session and prints is the result,
  -- where only the state may change, to a login.
  pub tns_protocol_parse-Outcome :
      (pkt : List ℕ) (len : ℕ) (s : TnsSession)
      → Ensures (Outcome pkt len s) (tns_protocol_parse lib malloc pkt len s)
  unfolding tns_protocol_parse
  tns_protocol_parse-Outcome pkt len s =
      Ensures->>=_eq (Outcome pkt len s) (pkt_len pkt) _ λ named e.
        Ensures-if_eq (Outcome pkt len s) (len == named) _ _
          (λ same. Ensures->>=_eq (Outcome pkt len s) (pkt_type pkt) _ λ type f.
            Ensures-mono (Searched pkt len msg_type_handles type s) (Outcome pkt len s) _
              (outcome type (subst (λ n. pkt_len pkt ≡ some n) (sym (eqb→eq len named same)) e) f)
              (packet_handle-Searched msg_type_handles type pkt len s handles))
          (λ differs. wrong_length named e (λ same. cc (eqb_self len)) refl)
    where
      outcome :
          (type : ℕ)
          → pkt_len pkt ≡ some len
          → pkt_type pkt ≡ some type
          → (d : Done) → Searched pkt len msg_type_handles type s d
          → Outcome pkt len s d
      outcome type e f d (found h) = handled type e f h
      outcome type e f d (missed u m) = wrong_type type e f u m
