-- ===== src/Tns/ConnectText.antt =====
-- The connect packet's handler on the descriptors of Connect.Descriptor.
use tnsparser.Base.{
  ℕ, ◌+◌, ◌*◌, ◌<◌, ◌≡◌, Bool, true, none, some, List, ◌++◌, arith, length, ne→eqb, gt→leb,
}
use tnsparser.Connect.Descriptor.{Param, print, json, PlainNames, LongEnough}
use tnsparser.Connect.Refine.{parse_connect_data_to_json-print, length-print}
use tnsparser.Connect.Overflow.{parse_connect_data_to_json-overflow}
use tnsparser.Wire.{connect_ver, connect_ver_compatible, connect_data_len, connect_data}
use tnsparser.Util.{debug_hex_println}
use tnsparser.Session.{TnsSession, stat_connect}
use tnsparser.Tns.Types.{connect_line}
use tnsparser.Tns.TextAnswer.{TextAnswer, report_root-TextAnswer}
use tnsparser.Tns.Handlers.{CJson, tns_connect_handle, connect_text, report_root}

-- The packet carries the descriptor, at the place and with the length that its fields name, and the
-- two versions; `rest` is what stands behind the descriptor.
pub record Carries (pkt : List ℕ) (p : Param) (version compatible : ℕ) : Type 0 where
  pub rest : List ℕ
  pub data_len : connect_data_len pkt ≡ some (length (print p))
  pub text : connect_data pkt ≡ some (print p ++ rest)
  pub version_field : connect_ver pkt ≡ some version
  pub compatible_field : connect_ver_compatible pkt ≡ some compatible

module _ (lib : CJson) (malloc : ℕ → Bool) where
  handled_text :
      (pkt : List ℕ) (len : ℕ) (sess : TnsSession) (p : Param) (v c : ℕ)
      → 8 < len
      → Carries pkt p v c
      → tns_connect_handle lib malloc pkt len sess
        ≡ connect_text lib malloc pkt (length (print p)) sess
  unfolding tns_connect_handle debug_hex_println
  handled_text pkt len sess p v c long h =
      rw
        (gt→leb len 8 long, h.data_len, ne→eqb (length (print p)) 0 (omega (arith, length-print p)))

  -- The handler down to the library's parse.
  tns_connect_handle-parse :
      (pkt : List ℕ) (len : ℕ) (sess : TnsSession) (p : Param) (v c : ℕ)
      → 8 < len
      → Carries pkt p v c
      → PlainNames p
      → LongEnough p
      → malloc (2 * length (print p)) ≡ true
      → tns_connect_handle lib malloc pkt len sess
        ≡ report_root lib malloc
            (record sess { version = v; version_compatible = c; state = stat_connect })
            (connect_line sess.cur_sess_desc sess.cur_dir (length (json p) + 1))
            (lib.parse (json p))
  unfolding connect_text
  tns_connect_handle-parse pkt len sess p v c long h plain enough granted = rw (
    handled_text pkt len sess p v c long h,
    h.version_field,
    h.compatible_field,
    h.text,
    granted,
    (parse_connect_data_to_json-print p h.rest plain enough).0,
  )

  -- A connect packet of more than 8 bytes with a descriptor of plain names and texts, each text
  -- parameter with two characters at least, whose buffer malloc grants, is answered by what the
  -- JSON library finds in exactly the JSON text of the descriptor. If the text does not parse or
  -- has no DESCRIPTION, the answer is 0, the session with the packet's two versions and
  -- STAT_CONNECT, and one line that names the length of that text with its terminator; if
  -- DESCRIPTION has CONNECT_DATA and that a CID, the same with, below the line, one line each for
  -- the SERVICE_NAME of CONNECT_DATA and the HOST and USER of CID that is there and is a string; if
  -- CONNECT_DATA or CID is missing, a null pointer is followed.
  pub tns_connect_handle-json :
      (pkt : List ℕ) (len : ℕ) (sess : TnsSession) (p : Param) (v c : ℕ)
      → 8 < len
      → Carries pkt p v c
      → PlainNames p
      → LongEnough p
      → malloc (2 * length (print p)) ≡ true
      → TextAnswer lib malloc
          (json p)
          (record sess { version = v; version_compatible = c; state = stat_connect })
          (connect_line sess.cur_sess_desc sess.cur_dir (length (json p) + 1))
          (tns_connect_handle lib malloc pkt len sess)
  tns_connect_handle-json pkt len sess p v c long h plain enough granted =
      rw (tns_connect_handle-parse pkt len sess p v c long h plain enough granted)
        (report_root-TextAnswer lib malloc (json p) _ _)

  -- A connect packet whose descriptor's JSON text does not fit into the buffer makes the handler
  -- write outside it.
  pub tns_connect_handle-overflow :
      (pkt : List ℕ) (len : ℕ) (sess : TnsSession) (p : Param) (v c : ℕ)
      → 8 < len
      → Carries pkt p v c
      → PlainNames p
      → 2 * length (print p) < length (json p) + 1
      → malloc (2 * length (print p)) ≡ true
      → tns_connect_handle lib malloc pkt len sess ≡ none
  unfolding connect_text
  tns_connect_handle-overflow pkt len sess p v c long h plain over granted = rw (
    handled_text pkt len sess p v c long h,
    h.version_field,
    h.compatible_field,
    h.text,
    granted,
    parse_connect_data_to_json-overflow p h.rest plain over,
  )
