-- ===== src/Tns/Parse.antt =====
-- The entry of the parser: msg_type_handles, packet_handle and TNS_protocol_parse.
use tnsparser.Base.{ℕ, Bool, Option, none, some, List, [], ◌∷◌, ◌==◌, if◌then◌else◌, ◌>>=◌}
use tnsparser.Wire.{pkt_len, pkt_type}
use tnsparser.Session.{TnsSession}
use tnsparser.Tns.Types.{
  code_pkt_len, code_pkt_type, Done, tns_type_connect, tns_type_accept, tns_type_refuse,
  tns_type_data, tns_type_resend, tns_type_ack, tns_type_redirect, tns_type_null, tns_type_unknown1,
  tns_type_abort, tns_type_unknown2, tns_type_marker, tns_type_unknown3, tns_type_unknown4,
}
use tnsparser.Tns.Table.{PktHandle}
use tnsparser.Tns.Handlers.{
  CJson, tns_connect_handle, tns_accept_handle, tns_refuse_handle, tns_data_handle,
  tns_resend_handle,
}

pub data PktFunc : Type 0 where
  connect accept refuse data_pkt resend : PktFunc

abbrev entry : ℕ → Option PktFunc → PktHandle PktFunc
entry type func = record { version = 0; type = type; func = func }

-- Nine types have null pointers.
abbrev pub msg_type_handles : List (PktHandle PktFunc)
msg_type_handles =
    entry tns_type_connect (some connect)
    ∷ entry tns_type_accept (some accept)
    ∷ entry tns_type_ack none
    ∷ entry tns_type_refuse (some refuse)
    ∷ entry tns_type_redirect none
    ∷ entry tns_type_data (some data_pkt)
    ∷ entry tns_type_null none
    ∷ entry tns_type_unknown1 none
    ∷ entry tns_type_abort none
    ∷ entry tns_type_unknown2 none
    ∷ entry tns_type_resend (some resend)
    ∷ entry tns_type_marker none
    ∷ entry tns_type_unknown3 none
    ∷ entry tns_type_unknown4 none
    ∷ []

unfoldable pub packet_match : PktHandle PktFunc → ℕ → Option PktFunc
packet_match h type = if h.type == type then h.func else none

module _ (lib : CJson) (malloc : ℕ → Bool) where
  unfoldable pub call_packet : PktFunc → List ℕ → ℕ → TnsSession → Option Done
  call_packet connect = tns_connect_handle lib malloc
  call_packet accept = tns_accept_handle
  call_packet refuse = tns_refuse_handle
  call_packet data_pkt = tns_data_handle
  call_packet resend = tns_resend_handle

  unfoldable pub packet_handle :
      List (PktHandle PktFunc) → ℕ → List ℕ → ℕ → TnsSession → Option Done
  packet_handle [] type pkt len sess = some (record { code = code_pkt_type; sess = sess; out = [] })
  packet_handle (h ∷ ph) type pkt len sess = elim (packet_match h type) [
    | some func ↦ call_packet func pkt len sess
    | none ↦ packet_handle ph type pkt len sess
  ]

  unfoldable pub tns_protocol_parse : List ℕ → ℕ → TnsSession → Option Done
  tns_protocol_parse pkt len sess = do
    named ← pkt_len pkt
    if len == named
        then (pkt_type pkt >>= λ type. packet_handle msg_type_handles type pkt len sess)
        else some (record { code = code_pkt_len; sess = sess; out = [] })
