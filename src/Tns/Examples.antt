-- ===== src/Tns/Examples.antt =====
-- The parser at concrete packets.
use tnsparser.Base.{
  ℕ, ◌+◌, ◌≤◌, ◌≡◌, refl, Bool, true, Option, none, some, List, [], ◌∷◌, ◌++◌, arith, length,
  replicate, Ensures, ◌==◌, if◌then◌else◌,
}
use tnsparser.Connect.Descriptor.{Param, text, print, inner, json}
use tnsparser.Wire.{
  connect_ver, connect_ver_compatible, connect_data_len, connect_data, connect_data_offset,
  load_ntohs, load_ushort, ntohs, pkt_len, pkt_type, data_id, accept_ver, accept_data_len,
}
use tnsparser.Session.{TnsSession, zero_session, stat_connect, stat_accept}
use tnsparser.Tns.Types.{
  Done, code_success, connect_line, return_status, header, plain_status, query_sql,
}
use tnsparser.Tns.Payload.{tns_313_rs, tns_314_rs, tns_314_oci}
use tnsparser.Tns.Whole.{Whole, tns_314-Whole}
use tnsparser.Tns.Handlers.{CJson, tns_connect_handle, tns_data_handle, tns_accept_handle}
use tnsparser.Tns.Parse.{tns_protocol_parse, packet_handle, packet_match, call_packet}
use tnsparser.Tns.Outcome.{Outcome, tns_protocol_parse-Outcome}
use tnsparser.Tns.DataTotal.{tns_protocol_parse-data}
use tnsparser.Tns.Texts.{Clip, tns_313_rs-Clip}
use tnsparser.Tns.TextAnswer.{TextAnswer}
use tnsparser.Tns.ConnectText.{Carries, tns_connect_handle-json}
use tnsparser.Tns.OverRead.{tns_data_handle-over_read}

-- A library that parses every text, and finds only items whose name starts with `D`.
abbrev starts_with_d : List ℕ → Option ℕ
starts_with_d [] = none
starts_with_d (c ∷ cs) = if c == b'D' then some 1 else none

abbrev lib : CJson
lib = record {
  Item = ℕ;
  parse = λ text. some 0;
  get_object_item = λ item name. starts_with_d name;
  value_string = λ item. none;
}

abbrev malloc : ℕ → Bool
malloc size = true

abbrev accept : List ℕ
accept = 0 ∷ 40 ∷ 0 ∷ 0 ∷ 2 ∷ 0 ∷ 0 ∷ 0 ∷ 1 ∷ 57 ∷ replicate 30 0

accepted :
    tns_protocol_parse lib malloc accept 40 zero_session
    ≡ some (record {
      code = code_success;
      sess = record zero_session { version = 313; state = stat_accept };
      out = [];
    })
unfolding tns_protocol_parse packet_handle packet_match call_packet tns_accept_handle pkt_len
    pkt_type accept_ver accept_data_len load_ntohs load_ushort ntohs
    tnsparser.Util.debug_hex_println
accepted = refl

tns_protocol_parse-Outcome_example :
    Ensures (Outcome accept 40 zero_session) (tns_protocol_parse lib malloc accept 40 zero_session)
tns_protocol_parse-Outcome_example = tns_protocol_parse-Outcome lib malloc accept 40 zero_session

-- Two letters in a data packet of version 313.
abbrev in_version_313 : TnsSession
in_version_313 = record zero_session { version = 313 }

abbrev data_packet : List ℕ
data_packet = 0 ∷ 20 ∷ 0 ∷ 0 ∷ 6 ∷ 0 ∷ 0 ∷ 0 ∷ 0 ∷ 0 ∷ 8 ∷ 1 ∷ b'o' ∷ b'k' ∷ replicate 20 0

tns_protocol_parse-data_example :
    (d : Done) × (tns_protocol_parse lib malloc data_packet 20 in_version_313 ≡ some d)
    × Outcome data_packet 20 in_version_313 d
unfolding pkt_type
tns_protocol_parse-data_example =
    tns_protocol_parse-data data_packet 20 20 (omega arith) refl refl lib malloc in_version_313 refl

-- (A=b) behind the fields of a connect packet of version 314.
abbrev parameter : Param
parameter = text (b'A' ∷ []) (b'b' ∷ [])

abbrev connect : List ℕ
connect =
    0
    ∷ 33
    ∷ 0
    ∷ 0
    ∷ 1
    ∷ 0
    ∷ 0
    ∷ 0
    ∷ 1
    ∷ 0x3a
    ∷ 1
    ∷ 0x2c
    ∷ (replicate 12 0 ++ (0 ∷ 5 ∷ 0 ∷ 28 ∷ b'(' ∷ b'A' ∷ b'=' ∷ b'b' ∷ b')' ∷ []))

connect-Carries : Carries connect parameter 314 300
unfolding print inner connect_ver connect_ver_compatible connect_data_len connect_data
    connect_data_offset load_ntohs load_ushort ntohs
connect-Carries = record {
  rest = [];
  data_len = refl;
  text = refl;
  version_field = refl;
  compatible_field = refl;
}

-- A library that finds every item, each with its name as its string.
abbrev finds : CJson
finds = record {
  Item = List ℕ;
  parse = λ text. some text;
  get_object_item = λ item name. some name;
  value_string = λ item. some item;
}

tns_connect_handle-json_example :
    TextAnswer finds malloc
      (json parameter)
      (record zero_session { version = 314; version_compatible = 300; state = stat_connect })
      (connect_line zero_session.cur_sess_desc zero_session.cur_dir (length (json parameter) + 1))
      (tns_connect_handle finds malloc connect 33 zero_session)
tns_connect_handle-json_example =
    tns_connect_handle-json finds malloc connect 33 zero_session parameter 314 300 (omega arith)
      connect-Carries (omega arith) (omega arith) refl

tns_313_rs-Clip_example :
    (n : ℕ) × (s : List ℕ) × (tns_313_rs (b'O' ∷ b'K' ∷ 7 ∷ 0 ∷ []) 3 zero_session
      ≡ some (record {
        code = code_success;
        sess = zero_session;
        out = return_status (header zero_session) n s ∷ [];
      }))
    × Clip (b'O' ∷ b'K' ∷ 7 ∷ 0 ∷ []) 3 128 n s
    × (length s ≤ 126)
tns_313_rs-Clip_example =
    tns_313_rs-Clip (b'O' ∷ b'K' ∷ 7 ∷ 0 ∷ []) 3 3 zero_session (omega arith) (omega arith)
      (omega arith) refl

-- A query of two letters, with a byte that is not printable and one more letter behind them.
abbrev query : List ℕ
query = 0 ∷ 0 ∷ 0 ∷ 0x5e ∷ b'o' ∷ b'k' ∷ 7 ∷ b'x' ∷ 0 ∷ []

tns_314-Whole_example :
    (n : ℕ) × (s : List ℕ) × Whole query 8 n s
    × (tns_314_rs query 8 zero_session
        ≡ some (record { code = code_success; sess = zero_session; out = plain_status n s ∷ [] }))
    × (tns_314_oci query 8 zero_session
        ≡ some (record { code = code_success; sess = zero_session; out = query_sql n s ∷ [] }))
tns_314-Whole_example =
    tns_314-Whole query 8 8 zero_session (omega arith) (omega arith) (omega arith) refl refl

-- A return status of 14 bytes, with three bytes behind it.
abbrev status : List ℕ
status = 0 ∷ 14 ∷ 0 ∷ 0 ∷ 6 ∷ 0 ∷ 0 ∷ 0 ∷ 0 ∷ 0 ∷ 4 ∷ 0 ∷ b'O' ∷ b'K' ∷ 0 ∷ 0 ∷ 0 ∷ []

tns_data_handle-over_read_example :
    tns_data_handle status 14 (record zero_session { version = 313 }) ≡ none
unfolding data_id
tns_data_handle-over_read_example =
    tns_data_handle-over_read status 14 (record zero_session { version = 313 }) (omega arith)
      (omega arith) (omega arith) refl refl
