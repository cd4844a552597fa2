-- ===== src/Tns/OverRead.antt =====
-- The data packet's handler passes on the length of the whole packet with a pointer behind its head.
use tnsparser.Base.{
  ℕ, ◌+◌, ◌≤◌, ◌<◌, ◌≡◌, none, some, List, arith, length, length-drop, ne→eqb, gt→leb,
}
use tnsparser.Visible.Longest.{parse_continuous_visible_characters-short}
use tnsparser.Wire.{pkt_data, data_id}
use tnsparser.Util.{debug_hex_println}
use tnsparser.Session.{TnsSession}
use tnsparser.Tns.Types.{tns_313, tns_data_id_rs}
use tnsparser.Tns.Payload.{clipped, tns_313_rs}
use tnsparser.Tns.Table.{msg_data_id_handle, payload_match, call_payload}
use tnsparser.Tns.Handlers.{tns_data_handle, data_payload}

clipped-short : (pkt : List ℕ) (len size : ℕ) → length pkt < len → clipped pkt len size ≡ none
unfolding clipped
clipped-short pkt len size h = rw (parse_continuous_visible_characters-short pkt len h)

-- A return status packet of version 313 with anything behind its head of twelve bytes is read past
-- its end: where the memory ends with the packet, or less than eight bytes behind it, the handler
-- faults.
pub tns_data_handle-over_read :
    (pkt : List ℕ) (len : ℕ) (sess : TnsSession)
    → 12 < len
    → len ≤ length pkt
    → length pkt < len + 8
    → sess.version ≡ tns_313
    → data_id pkt ≡ some tns_data_id_rs
    → tns_data_handle pkt len sess ≡ none
unfolding tns_data_handle data_payload debug_hex_println msg_data_id_handle payload_match
    call_payload tns_313_rs
tns_data_handle-over_read pkt len sess long whole short version id = rw (
  gt→leb len 8 (omega arith),
  gt→leb len 12 (omega arith),
  id,
  version,
  ne→eqb len 0 (omega arith),
  clipped-short (pkt_data pkt) len 128 (omega (arith, length-drop 8 pkt)),
)
