-- ===== src/Tns/Handled.antt =====
-- What each packet handler does to a session.
use tnsparser.Base.{
  ℕ, Bool, ◌+◌, ◌≤◌, ◌<◌, ◌≡◌, refl, ◌≢◌, Option, none, some, List, [], leb, ◌==◌, Ensures,
  Ensures->>, Ensures->>=_eq, Ensures-if_eq, Ensures-mono, Ensures-seq, leb→le, leb→gt, eqb→eq,
  eqb_self, ap, ◌∙◌,
}
use tnsparser.Connect.{parse_connect_data_to_json}
use tnsparser.Util.{debug_hex_println}
use tnsparser.Wire.{
  accept_ver, accept_data_len, refuse_data_len, connect_data_len, connect_ver,
  connect_ver_compatible, connect_data, data_id, pkt_data,
}
use tnsparser.Wire.Offsets.{tns_head_len, offset_tns_data_offset}
use tnsparser.Session.{TnsSession, stat_connect, stat_accept, stat_refuse, stat_data}
use tnsparser.Tns.Types.{
  Line, Done, code_success, tns_type_connect, tns_type_accept, tns_type_refuse, tns_type_data,
  tns_type_resend,
}
use tnsparser.Tns.Table.{msg_data_id_handles, msg_data_id_handle}
use tnsparser.Tns.Keeps.{SameEnds, PayloadKeeps, msg_data_id_handle-Keeps}
use tnsparser.Tns.Handlers.{
  CJson, codes, report_root, report_found, report_description, connect_text, tns_connect_handle,
  tns_accept_handle, tns_refuse_handle, data_payload, tns_data_handle, tns_resend_handle,
}

-- The types whose entry in the table has a handler.
pub data HasHandler (type : ℕ) : Type 0 where
  connects : type ≡ tns_type_connect → HasHandler type
  accepts : type ≡ tns_type_accept → HasHandler type
  refuses : type ≡ tns_type_refuse → HasHandler type
  carries : type ≡ tns_type_data → HasHandler type
  resends : type ≡ tns_type_resend → HasHandler type

-- What the handler of a type leaves of a session, each case with what the packet holds: too short for
-- a body, nothing changes; an accept packet gives its version and the state, a refuse packet the
-- state, a connect packet with a text both versions and the state, a data packet the state, and its
-- payload's handler the rest. Only connect and data packets print.
pub data Handled (pkt : List ℕ) (len type : ℕ) (s : TnsSession) (d : Done) : Type 0 where
  short :
      HasHandler type
      → len ≤ tns_head_len
      → d ≡ record { code = code_success; sess = s; out = [] }
      → Handled pkt len type s d
  resent :
      type ≡ tns_type_resend
      → d ≡ record { code = code_success; sess = s; out = [] }
      → Handled pkt len type s d
  accepted :
      (version : ℕ)
      → type ≡ tns_type_accept
      → tns_head_len < len
      → accept_ver pkt ≡ some version
      → d ≡ record {
        code = code_success;
        sess = record s { version = version; state = stat_accept };
        out = [];
      }
      → Handled pkt len type s d
  refused :
      type ≡ tns_type_refuse
      → tns_head_len < len
      → d ≡ record { code = code_success; sess = record s { state = stat_refuse }; out = [] }
      → Handled pkt len type s d
  no_text :
      type ≡ tns_type_connect
      → tns_head_len < len
      → connect_data_len pkt ≡ some 0
      → d ≡ record { code = code_success; sess = s; out = [] }
      → Handled pkt len type s d
  connected :
      (n version compatible : ℕ)
      → type ≡ tns_type_connect
      → tns_head_len < len
      → connect_data_len pkt ≡ some n
      → n ≢ 0
      → connect_ver pkt ≡ some version
      → connect_ver_compatible pkt ≡ some compatible
      → d.code ≡ code_success
      → d.sess
        ≡ record s { version = version; version_compatible = compatible; state = stat_connect }
      → Handled pkt len type s d
  no_payload :
      type ≡ tns_type_data
      → tns_head_len < len
      → len ≤ tns_head_len + offset_tns_data_offset
      → d ≡ record { code = code_success; sess = record s { state = stat_data }; out = [] }
      → Handled pkt len type s d
  carried :
      (id : ℕ) (d' : Done)
      → type ≡ tns_type_data
      → tns_head_len + offset_tns_data_offset < len
      → data_id pkt ≡ some id
      → msg_data_id_handle msg_data_id_handles s.version id
          (pkt_data pkt)
          len
          (record s { state = stat_data })
        ≡ some d'
      → PayloadKeeps (record s { state = stat_data }) d'
      → d ≡ record { code = code_success; sess = d'.sess; out = d'.out }
      → Handled pkt len type s d

same_ends : (s : TnsSession) (d : Done) → d.sess ≡ s → SameEnds s d.sess
same_ends s d e = record {
  key = ap (λ t. t.key) e;
  cur_dir = ap (λ t. t.cur_dir) e;
  update_time = ap (λ t. t.update_time) e;
  cur_sess_desc = ap (λ t. t.cur_sess_desc) e;
}

-- A key that was there is there afterwards.
pub key-Handled :
    (pkt : List ℕ) (len type : ℕ) (s : TnsSession) (d : Done)
    → Handled pkt len type s d
    → d.sess.key ≡ s.key
key-Handled pkt len type s d (short h le e) = ap (λ (d : Done). d.sess.key) e
key-Handled pkt len type s d (resent t e) = ap (λ (d : Done). d.sess.key) e
key-Handled pkt len type s d (accepted v t lt a e) = ap (λ (d : Done). d.sess.key) e
key-Handled pkt len type s d (refused t lt e) = ap (λ (d : Done). d.sess.key) e
key-Handled pkt len type s d (no_text t lt n e) = ap (λ (d : Done). d.sess.key) e
key-Handled pkt len type s d (connected n v c t lt a b f g code e) = ap (λ t. t.key) e
key-Handled pkt len type s d (no_payload t lt le e) = ap (λ (d : Done). d.sess.key) e
key-Handled pkt len type s d (carried id d' t lt i m k e) =
    ap (λ (d : Done). d.sess.key) e ∙ k.ends.key

pub resend-Handled :
    (pkt : List ℕ) (len : ℕ) (s : TnsSession)
    → Ensures (Handled pkt len tns_type_resend s) (tns_resend_handle pkt len s)
unfolding tns_resend_handle
resend-Handled pkt len s = resent refl refl

pub accept-Handled :
    (pkt : List ℕ) (len : ℕ) (s : TnsSession)
    → Ensures (Handled pkt len tns_type_accept s) (tns_accept_handle pkt len s)
unfolding tns_accept_handle
accept-Handled pkt len s =
    Ensures-if_eq (Handled pkt len tns_type_accept s) (leb len tns_head_len) _ _
      (λ le. short (accepts refl) (leb→le len tns_head_len le) refl)
      (λ gt. Ensures->> (Handled pkt len tns_type_accept s) (debug_hex_println _ _ _) _ (
        Ensures->>=_eq (Handled pkt len tns_type_accept s) (accept_ver pkt) _ λ version e.
          Ensures->> (Handled pkt len tns_type_accept s) (accept_data_len pkt) _
            (accepted version refl (leb→gt len tns_head_len gt) e refl)))

pub refuse-Handled :
    (pkt : List ℕ) (len : ℕ) (s : TnsSession)
    → Ensures (Handled pkt len tns_type_refuse s) (tns_refuse_handle pkt len s)
unfolding tns_refuse_handle
refuse-Handled pkt len s =
    Ensures-if_eq (Handled pkt len tns_type_refuse s) (leb len tns_head_len) _ _
      (λ le. short (refuses refl) (leb→le len tns_head_len le) refl)
      (λ gt. Ensures->> (Handled pkt len tns_type_refuse s) (debug_hex_println _ _ _) _ (
        Ensures->> (Handled pkt len tns_type_refuse s) (refuse_data_len pkt) _
          (refused refl (leb→gt len tns_head_len gt) refl)))

pub data-Handled :
    (pkt : List ℕ) (len : ℕ) (s : TnsSession)
    → Ensures (Handled pkt len tns_type_data s) (tns_data_handle pkt len s)
unfolding tns_data_handle data_payload
data-Handled pkt len s =
    Ensures-if_eq (Handled pkt len tns_type_data s) (leb len tns_head_len) _ _
      (λ le. short (carries refl) (leb→le len tns_head_len le) refl)
      (λ gt. Ensures->> (Handled pkt len tns_type_data s) (debug_hex_println _ _ _) _ (
        Ensures-if_eq (Handled pkt len tns_type_data s)
          (leb len (tns_head_len + offset_tns_data_offset)) _ _
          (λ le. no_payload refl (leb→gt len tns_head_len gt) (leb→le len _ le) refl)
          (λ far. Ensures->>=_eq (Handled pkt len tns_type_data s) (data_id pkt) _ λ id e.
            Ensures-seq (PayloadKeeps s') (Handled pkt len tns_type_data s) _ _
              (msg_data_id_handle-Keeps msg_data_id_handles s.version id (pkt_data pkt) len s')
              (λ d' f k. carried id d' refl (leb→gt len _ far) e f k refl))))
  where
    s' : TnsSession
    s' = record s { state = stat_data }

-- Every answer of report_root is one of success, with the session that it is given.
pub record Reported (s' : TnsSession) (d : Done) : Type 0 where
  pub code : d.code ≡ code_success
  pub sess : d.sess ≡ s'

module _ (lib : CJson) (malloc : ℕ → Bool) where
  report_root-Reported :
      (s' : TnsSession) (line : Line) (root : Option lib.Item)
      → Ensures (Reported s') (report_root lib malloc s' line root)
  unfolding report_root report_found report_description
  report_root-Reported s' line none = record { code = refl; sess = refl }
  report_root-Reported s' line (some root) =
      reported (lib.get_object_item root (codes "DESCRIPTION"))
    where
      reported :
          (desc : Option lib.Item) → Ensures (Reported s') (report_found lib malloc s' line desc)
      reported none = record { code = refl; sess = refl }
      reported (some desc) =
          Ensures->>=_eq (Reported s') (lib.get_object_item desc (codes "CONNECT_DATA")) _
            λ conn_data e.
              Ensures->>=_eq (Reported s') (lib.get_object_item conn_data (codes "CID")) _
                λ cid f. record { code = refl; sess = refl }

  pub connect-Handled :
      (pkt : List ℕ) (len : ℕ) (s : TnsSession)
      → Ensures (Handled pkt len tns_type_connect s) (tns_connect_handle lib malloc pkt len s)
  unfolding tns_connect_handle connect_text
  connect-Handled pkt len s =
      Ensures-if_eq P (leb len tns_head_len) _ _
        (λ le. short (connects refl) (leb→le len tns_head_len le) refl)
        (λ gt. Ensures->> P (debug_hex_println _ _ _) _ (
          Ensures->>=_eq P (connect_data_len pkt) _ λ n e.
            Ensures-if_eq P (n == 0) _ _
              (λ empty.
                no_text refl (leb→gt len tns_head_len gt) (e ∙ ap some (eqb→eq n 0 empty)) refl)
              (λ some_text. Ensures->>=_eq P (connect_ver pkt) _ λ version f.
                Ensures->>=_eq P (connect_ver_compatible pkt) _ λ compatible g.
                  Ensures->>=_eq P (connect_data pkt) _ λ bufin h.
                    Ensures->>=_eq P (parse_connect_data_to_json _ _ _ _) _ λ json i.
                      Ensures-mono (Reported _) P _
                        (λ d r.
                          connected n version compatible refl (leb→gt len tns_head_len gt) e
                            (λ zero_long. cc (some_text, zero_long, eqb_self 0)) f g r.code r.sess)
                        (report_root-Reported _ _ (lib.parse json.text)))))
    where
      P : Done → Type 0
      P = Handled pkt len tns_type_connect s
