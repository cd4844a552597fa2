-- ===== src/Tns/DataTotal.antt =====
-- Data packets that the parser is sure to answer.
use tnsparser.Base.{
  leb→gt, ℕ, zero, suc, ◌+◌, ◌-◌, ◌≤◌, ◌<◌, ◌≡◌, refl, ap, ◌∙◌, inl, inr, Bool, ◌||◌, Option, none,
  some, List, [], ◌∷◌, arith, leb, ◌==◌, length, length-drop, drop, All, get_elem?, Bool-cases,
  get_elem?-lt, eq_of_some, ◌>>=◌, Returns, Returns->>=, Returns-if, Ensures-Returns,
}
use tnsparser.Util.{debug_hex_println, g_hexdump_enable}
use tnsparser.Visible.Longest.{parse_continuous_visible_characters-Finds}
use tnsparser.Wire.{c_string, pkt_data, data_id, pkt_len, pkt_type, load_ntohs}
use tnsparser.Wire.Offsets.{tns_head_len}
use tnsparser.Session.{TnsSession, stat_data}
use tnsparser.Tns.Types.{Done, tns_type_data}
use tnsparser.Tns.Payload.{
  clipped, unclipped, second_string, version_bytes, tns_313_rs, tns_313_oci, tns_313_sp,
  tns_313_sns, tns_314_rs, tns_314_oci, tns_314_sp, tns_314_sns,
}
use tnsparser.Tns.Table.{
  PktHandle, PayloadFunc, rs_313, oci_313, sp_313, sns_313, rs_314, oci_314, sp_314, sns_314,
  call_payload, payload_match, msg_data_id_handle, msg_data_id_handles,
}
use tnsparser.Tns.Handlers.{CJson, tns_data_handle, data_payload}
use tnsparser.Tns.Parse.{tns_protocol_parse, call_packet, msg_type_handles}
use tnsparser.Tns.Outcome.{Outcome, tns_protocol_parse-Outcome}
use tnsparser.Tns.Texts.{c_string-cons, get_elem?-drop, c_string-Returns, clipped-Returns}
use tnsparser.Tns.Total.{no_dump, load_ntohs-Returns, Answers, packet_handle-Returns}

get_elem?-le : (xs : List ℕ) (i c : ℕ) → get_elem? xs i ≡ some c → i < length xs
get_elem?-le [] i c e = absurd (cc e)
get_elem?-le (x ∷ xs) zero c e = omega arith
get_elem?-le (x ∷ xs) (suc i) c e = omega (arith, get_elem?-le xs i c e)

-- A string ends at the first zero byte.
length-c_string :
    (xs s : List ℕ) (k : ℕ) → c_string xs ≡ some s → get_elem? xs k ≡ some 0 → length s ≤ k
unfolding c_string
length-c_string [] s k e z = absurd (cc z)
length-c_string (x ∷ xs) s zero e z =
    omega (arith, ap (λ l. length l) (eq_of_some (rw (eq_of_some z) at e)))
length-c_string (x ∷ xs) s (suc k) e z = elim (Bool-cases (x == 0)) [
  | inl stop ↦ omega (arith, ap (λ l. length l) (eq_of_some (rw stop at e)))
  | inr go ↦
      let (t, f, g) = c_string-cons x xs s (λ h. cc (rw h at go)) e in
      omega (arith, length-c_string xs t k f z, ap (λ l. length l) g)
]

-- The payload can be read as far as two zero bytes at or behind its end.
module _ (pkt : List ℕ) (len k : ℕ) (s : TnsSession) (long : 12 < len) (behind : len ≤ k)
    (end : get_elem? pkt k ≡ some 0) (end_next : get_elem? pkt (suc k) ≡ some 0) where
  room : k + 1 < length pkt
  room = omega (arith, get_elem?-le pkt (suc k) 0 end_next)

  clipped_text : (size : ℕ) → Returns (clipped pkt len size)
  clipped_text size = clipped-Returns pkt len size k (omega (arith, room)) behind end

  unclipped_text : Returns (unclipped pkt len)
  unfolding unclipped
  unclipped_text =
      let (run, e, finds) =
        parse_continuous_visible_characters-Finds pkt len (omega (arith, room)) in
      rw e (
        Returns->>= (c_string (drop run.ptr pkt)) _
          (c_string-Returns (drop run.ptr pkt) (k - run.ptr)
            (get_elem?-drop run.ptr k pkt (omega (arith, finds.within)) ∙ end))
          λ s _. (_, refl))

  second_text : Returns (second_string pkt)
  unfolding second_string
  second_text =
      let at_end = get_elem?-drop 3 k pkt (omega arith) ∙ end in
      Returns->>= (c_string (drop 3 pkt)) _ (c_string-Returns (drop 3 pkt) (k - 3) at_end)
        λ first e.
          let short = length-c_string (drop 3 pkt) first (k - 3) e at_end in
          c_string-Returns (drop (3 + (length first + 1)) pkt) (suc k - (3 + (length first + 1)))
            (get_elem?-drop (3 + (length first + 1)) (suc k) pkt (omega arith) ∙ end_next)

  four_bytes : Returns (version_bytes pkt)
  unfolding version_bytes
  four_bytes =
      let (a, e) = get_elem?-lt pkt 8 (omega (arith, room)) in
      let (b, f) = get_elem?-lt pkt 9 (omega (arith, room)) in
      let (c, g) = get_elem?-lt pkt 10 (omega (arith, room)) in
      let (d, h) = get_elem?-lt pkt 11 (omega (arith, room)) in rw (e, f, g, h) (_, refl)

  marker_byte : Returns (get_elem? pkt 3)
  marker_byte = get_elem?-lt pkt 3 (omega (arith, room))

  printing {ℓ} :
      {A : Type ℓ} (m : Option A) (f : A → Done) → Returns m → Returns (m >>= λ a. some (f a))
  printing m f r = Returns->>= m _ r λ a _. (_, refl)

  call_payload-Returns : (f : PayloadFunc) → Returns (call_payload f pkt len s)
  unfolding call_payload tns_313_rs tns_313_oci tns_313_sp tns_313_sns tns_314_rs tns_314_oci
      tns_314_sp tns_314_sns
  call_payload-Returns rs_313 =
      Returns-if (len == 0) _ _ (_, refl) (printing (clipped pkt len 128) _ (clipped_text 128))
  call_payload-Returns oci_313 =
      Returns-if (len == 0) _ _ (_, refl)
        (Returns->>= (get_elem? pkt 3) _ marker_byte λ marker _.
          Returns-if (marker == 0x5e) _ _ (printing (clipped pkt len 1024) _ (clipped_text 1024))
            (Returns-if (marker == 0x73) _ _ (_, refl) (_, refl)))
  call_payload-Returns sp_313 =
      Returns-if (len == 0) _ _ (_, refl) (printing (second_string pkt) _ second_text)
  call_payload-Returns sns_313 =
      Returns-if (len == 0) _ _ (_, refl) (printing (version_bytes pkt) _ four_bytes)
  call_payload-Returns rs_314 =
      Returns-if (len == 0) _ _ (_, refl)
        (Returns->>= (get_elem? pkt 3) _ marker_byte λ marker _.
          Returns-if ((marker == 0x5e) || (marker == 0x04)) _ _
            (printing (unclipped pkt len) _ unclipped_text) (_, refl))
  call_payload-Returns oci_314 =
      Returns-if (len == 0) _ _ (_, refl)
        (Returns->>= (get_elem? pkt 3) _ marker_byte λ marker _.
          Returns-if (marker == 0x5e) _ _ (printing (unclipped pkt len) _ unclipped_text) (_, refl))
  call_payload-Returns sp_314 =
      Returns-if (len == 0) _ _ (_, refl) (printing (second_string pkt) _ second_text)
  call_payload-Returns sns_314 =
      Returns-if (len == 0) _ _ (_, refl) (printing (version_bytes pkt) _ four_bytes)

  pub msg_data_id_handle-Returns :
      (ph : List (PktHandle PayloadFunc)) (ver type : ℕ)
      → Returns (msg_data_id_handle ph ver type pkt len s)
  unfolding msg_data_id_handle
  msg_data_id_handle-Returns [] ver type = (_, refl)
  msg_data_id_handle-Returns (h ∷ ph) ver type =
      dispatch (msg_data_id_handle-Returns ph ver type) (payload_match h ver type)
    where
      dispatch :
          Returns (msg_data_id_handle ph ver type pkt len s)
          → (f : Option PayloadFunc)
          → Returns (elim f [
            | some func ↦ call_payload func pkt len s
            | none ↦ msg_data_id_handle ph ver type pkt len s
          ])
      dispatch rest none = rest
      dispatch rest (some f) = call_payload-Returns f

payload_byte :
    (pkt : List ℕ) (k c : ℕ) → get_elem? pkt (8 + k) ≡ some c → get_elem? (drop 8 pkt) k ≡ some c
payload_byte pkt k c e =
    ap (get_elem? (drop 8 pkt)) (omega arith) ∙ get_elem?-drop 8 (8 + k) pkt (omega arith) ∙ e

module _ (pkt : List ℕ) (len k : ℕ) (behind : len ≤ k) (end : get_elem? pkt (8 + k) ≡ some 0)
    (end_next : get_elem? pkt (8 + suc k) ≡ some 0) where
  data_payload-Returns : (s : TnsSession) → 12 < len → Returns (data_payload pkt len s)
  unfolding data_payload data_id pkt_data tns_head_len
  data_payload-Returns s long =
      Returns->>= (data_id pkt) _
        (get_elem?-lt (pkt_data pkt) 2
          (omega (arith, length-drop 8 pkt, get_elem?-le pkt (8 + suc k) 0 end_next)))
        λ id _.
          Returns->>= (msg_data_id_handle msg_data_id_handles s.version id (pkt_data pkt) len s) _
            (msg_data_id_handle-Returns (pkt_data pkt) len k s long behind
              (payload_byte pkt k 0 end) (payload_byte pkt (suc k) 0 end_next) msg_data_id_handles
              s.version id)
            λ done _. (_, refl)

  tns_data_handle-Returns : (s : TnsSession) → Returns (tns_data_handle pkt len s)
  unfolding tns_data_handle
  tns_data_handle-Returns s =
      let sess = record s { state = stat_data } in
      Returns-if (leb len tns_head_len) _ _ (_, refl)
        (Returns->>= (debug_hex_println g_hexdump_enable (pkt_data pkt) (len - tns_head_len)) _
          (no_dump (pkt_data pkt) (len - tns_head_len))
          λ _ _. elim (Bool-cases (leb len 12)) [
            | inl short ↦ rw short (_, refl)
            | inr more ↦ rw more (data_payload-Returns sess (leb→gt len 12 more))
          ])

  module _ (lib : CJson) (malloc : ℕ → Bool) (s : TnsSession) where
    data-Answers :
        All (λ h. Answers lib malloc pkt len s tns_type_data h.type h.func) msg_type_handles
    unfolding call_packet
    data-Answers = (
      inl (λ e. absurd (omega (arith, e))),
      (
        inl (λ e. absurd (omega (arith, e))),
        (tt, (inl (λ e. absurd (omega (arith, e))), (tt, (inr (tns_data_handle-Returns s), rest)))),
      ),
    )
      where
        rest :
            All
              (λ h. Answers lib malloc pkt len s tns_type_data h.type h.func)
              (drop 6 msg_type_handles)
        rest = (tt, (tt, (tt, (tt, (inl (λ e. absurd (omega (arith, e))), (tt, (tt, (tt, tt))))))))

    -- A data packet is answered, in one of the three ways, whatever length it names or is given, when
    -- two zero bytes that follow each other lie in memory at or behind the end of what its length
    -- counts from the payload on.
    pub tns_protocol_parse-data :
        pkt_type pkt ≡ some tns_type_data
        → (d : Done) × (tns_protocol_parse lib malloc pkt len s ≡ some d) × Outcome pkt len s d
    unfolding tns_protocol_parse pkt_len
    tns_protocol_parse-data typed =
        Ensures-Returns (Outcome pkt len s) (tns_protocol_parse lib malloc pkt len s)
          (tns_protocol_parse-Outcome lib malloc pkt len s)
          (Returns->>= (load_ntohs pkt 0) _
            (load_ntohs-Returns pkt 0 (omega (arith, get_elem?-le pkt (8 + suc k) 0 end_next)))
            λ named _.
              Returns-if (len == named) _ _
                (rw typed (
                  packet_handle-Returns lib malloc pkt len s tns_type_data msg_type_handles
                    data-Answers))
                (_, refl))
