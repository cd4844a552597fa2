-- ===== src/Tns/Handlers.antt =====
-- The handlers of the packet types: tns_connect_handle, tns_accept_handle, tns_refuse_handle,
-- tns_data_handle and tns_resend_handle.
use Prim.Native.Char.{code}
use Prim.Native.String.{String}
use tnsparser.Base.{
  ℕ, ◌+◌, ◌-◌, ◌*◌, Bool, Option, none, some, List, [], ◌∷◌, ◌++◌, leb, ◌==◌, if◌then◌else◌, ◌>>=◌,
  ◌>>◌,
}
use tnsparser.Connect.{parse_connect_data_to_json}
use tnsparser.Util.{debug_hex_println, g_hexdump_enable}
use tnsparser.Wire.{
  pkt_data, connect_ver, connect_ver_compatible, connect_data_len, connect_data, accept_ver,
  accept_data_len, refuse_data_len, data_id,
}
use tnsparser.Wire.Offsets.{tns_head_len, offset_tns_data_offset}
use tnsparser.Session.{TnsSession, stat_connect, stat_accept, stat_refuse, stat_data}
use tnsparser.Tns.Types.{Line, Done, success, connect_line, service_name, host, user}
use tnsparser.Tns.Table.{msg_data_id_handles, msg_data_id_handle}

-- The characters of a text.
abbrev pub codes : String → List ℕ
codes String.[] = []
codes (String.◌∷◌ c s) = code c ∷ codes s

-- The JSON library as the handler calls it: cJSON_Parse, cJSON_GetObjectItem on an object, and the
-- value of an item whose type is cJSON_String. A null result is `none`.
pub record CJson : Type 1 where
  pub Item : Type 0
  pub parse : List ℕ → Option Item
  pub get_object_item : Item → List ℕ → Option Item
  pub value_string : Item → Option (List ℕ)

-- The library, and which sizes malloc grants.
module _ (lib : CJson) (malloc : ℕ → Bool) where
  open lib use {Item, parse, get_object_item, value_string}

  -- A line for an item that is there and is a string.
  unfoldable pub string_line : (List ℕ → Line) → Option Item → List Line
  string_line line none = []
  string_line line (some item) = elim (value_string item) [ none ↦ [] | some s ↦ line s ∷ [] ]

  -- Below the test of `desc`. The two tests that follow name `desc` again, so a null `conn_data` or
  -- `cid` is followed by the next cJSON_GetObjectItem.
  unfoldable pub report_description : TnsSession → Line → Item → Option Done
  unfolding string_line
  report_description sess line desc = do
    conn_data ← get_object_item desc (codes "CONNECT_DATA")
    let name = string_line service_name (get_object_item conn_data (codes "SERVICE_NAME"))
    cid ← get_object_item conn_data (codes "CID")
    let host_line = string_line host (get_object_item cid (codes "HOST"))
    let user_line = string_line user (get_object_item cid (codes "USER"))
    success sess (line ∷ (name ++ (host_line ++ user_line)))

  unfoldable pub report_found : TnsSession → Line → Option Item → Option Done
  report_found sess line none = success sess (line ∷ [])
  report_found sess line (some desc) = report_description sess line desc

  unfoldable pub report_root : TnsSession → Line → Option Item → Option Done
  report_root sess line none = success sess (line ∷ [])
  report_root sess line (some root) =
      report_found sess line (get_object_item root (codes "DESCRIPTION"))

  -- From the malloc on, for a connect text of `n` bytes. The result of the conversion is not looked
  -- at; what it left in the buffer is parsed.
  unfoldable pub connect_text : List ℕ → ℕ → TnsSession → Option Done
  connect_text pkt n sess = do
    version ← connect_ver pkt
    compatible ← connect_ver_compatible pkt
    let sess' = record sess {
      version = version;
      version_compatible = compatible;
      state = stat_connect;
    }
    bufin ← connect_data pkt
    json ← parse_connect_data_to_json (some bufin) n (malloc (2 * n)) (2 * n)
    let line = connect_line sess.cur_sess_desc sess.cur_dir json.outlen
    report_root sess' line (parse json.text)

  unfoldable pub tns_connect_handle : List ℕ → ℕ → TnsSession → Option Done
  tns_connect_handle pkt len sess = if leb len tns_head_len then success sess [] else (do
    debug_hex_println g_hexdump_enable (pkt_data pkt) (len - tns_head_len)
    n ← connect_data_len pkt
    if n == 0 then success sess [] else connect_text pkt n sess)

-- A data length of 0 leaves by `goto err`, which is where the other case ends as well.
unfoldable pub tns_accept_handle : List ℕ → ℕ → TnsSession → Option Done
tns_accept_handle pkt len sess = if leb len tns_head_len then success sess [] else (do
  debug_hex_println g_hexdump_enable (pkt_data pkt) (len - tns_head_len)
  version ← accept_ver pkt
  accept_data_len pkt
  success (record sess { version = version; state = stat_accept }) [])

unfoldable pub tns_refuse_handle : List ℕ → ℕ → TnsSession → Option Done
tns_refuse_handle pkt len sess = if leb len tns_head_len then success sess [] else (do
  debug_hex_println g_hexdump_enable (pkt_data pkt) (len - tns_head_len)
  refuse_data_len pkt
  success (record sess { state = stat_refuse }) [])

-- Behind the test of the length. The payload's handler is given the length of the whole packet with
-- a pointer behind its head, and its code is dropped.
unfoldable pub data_payload : List ℕ → ℕ → TnsSession → Option Done
data_payload pkt len sess = do
  id ← data_id pkt
  done ← msg_data_id_handle msg_data_id_handles sess.version id (pkt_data pkt) len sess
  success done.sess done.out

unfoldable pub tns_data_handle : List ℕ → ℕ → TnsSession → Option Done
tns_data_handle pkt len sess = if leb len tns_head_len then success sess [] else (do
  debug_hex_println g_hexdump_enable (pkt_data pkt) (len - tns_head_len)
  let sess' = record sess { state = stat_data }
  if leb len (tns_head_len + offset_tns_data_offset)
      then success sess' []
      else data_payload pkt len sess')

-- Both ways out do the same.
unfoldable pub tns_resend_handle : List ℕ → ℕ → TnsSession → Option Done
tns_resend_handle pkt len sess = success sess []
