-- ===== src/Tns/Keeps.antt =====
-- What the handlers of the data packet's payloads leave alone.
use tnsparser.Base.{
  ℕ, ◌≡◌, refl, ◌||◌, Option, none, some, List, [], ◌∷◌, ◌⊎◌, inl, inr, ◌==◌, get_elem?, Ensures,
  Ensures->>=, Ensures-if, ◌>>=◌,
}
use tnsparser.Session.{TnsSession, stat_loging_in}
use tnsparser.Tns.Types.{Line, Done, ErrorCode, code_success, code_data_id}
use tnsparser.Tns.Payload.{
  tns_313_rs, tns_313_oci, tns_313_sp, tns_313_sns, tns_314_rs, tns_314_oci, tns_314_sp,
  tns_314_sns,
}
use tnsparser.Tns.Table.{
  PktHandle, PayloadFunc, rs_313, oci_313, sp_313, sns_313, rs_314, oci_314, sp_314, sns_314,
  call_payload, payload_match, msg_data_id_handle,
}

-- Two sessions that differ in their versions and their state only.
pub record SameEnds (s t : TnsSession) : Type 0 where
  pub key : t.key ≡ s.key
  pub cur_dir : t.cur_dir ≡ s.cur_dir
  pub update_time : t.update_time ≡ s.update_time
  pub cur_sess_desc : t.cur_sess_desc ≡ s.cur_sess_desc

-- The payload of a data packet: the versions stay, and the state stays or becomes a login.
pub record PayloadKeeps (s : TnsSession) (d : Done) : Type 0 where
  pub ends : SameEnds s d.sess
  pub version : d.sess.version ≡ s.version
  pub version_compatible : d.sess.version_compatible ≡ s.version_compatible
  pub state : (d.sess.state ≡ s.state) ⊎ (d.sess.state ≡ stat_loging_in)

unchanged :
    (s : TnsSession) (c : ErrorCode) (out : List Line)
    → PayloadKeeps s (record { code = c; sess = s; out = out })
unchanged s c out = record {
  ends = record { key = refl; cur_dir = refl; update_time = refl; cur_sess_desc = refl };
  version = refl;
  version_compatible = refl;
  state = inl refl;
}

logged_in :
    (s : TnsSession) (out : List Line)
    → PayloadKeeps s
        (record { code = code_success; sess = record s { state = stat_loging_in }; out = out })
logged_in s out = record {
  ends = record { key = refl; cur_dir = refl; update_time = refl; cur_sess_desc = refl };
  version = refl;
  version_compatible = refl;
  state = inr refl;
}

-- A handler that prints one line for what it finds in the packet.
printing {ℓ} :
    {A : Type ℓ} (s : TnsSession) (m : Option A) (line : A → List Line)
    → Ensures
        (PayloadKeeps s)
        (m >>= λ a. some (record { code = code_success; sess = s; out = line a }))
printing s m line = Ensures->>= (PayloadKeeps s) m _ (λ a. unchanged s code_success (line a))

call_payload-Keeps :
    (f : PayloadFunc) (pkt : List ℕ) (len : ℕ) (s : TnsSession)
    → Ensures (PayloadKeeps s) (call_payload f pkt len s)
unfolding call_payload tns_313_rs tns_313_oci tns_313_sp tns_313_sns tns_314_rs tns_314_oci
    tns_314_sp tns_314_sns
call_payload-Keeps rs_313 pkt len s =
    Ensures-if (PayloadKeeps s) (len == 0) _ _ (unchanged s _ _) (printing s _ _)
call_payload-Keeps oci_313 pkt len s =
    Ensures-if (PayloadKeeps s) (len == 0) _ _ (unchanged s _ _) (
      Ensures->>= (PayloadKeeps s) (get_elem? pkt 3) _ λ marker.
        Ensures-if (PayloadKeeps s) (marker == 0x5e) _ _ (printing s _ _)
          (Ensures-if (PayloadKeeps s) (marker == 0x73) _ _ (logged_in s _) (unchanged s _ _)))
call_payload-Keeps sp_313 pkt len s =
    Ensures-if (PayloadKeeps s) (len == 0) _ _ (unchanged s _ _) (printing s _ _)
call_payload-Keeps sns_313 pkt len s =
    Ensures-if (PayloadKeeps s) (len == 0) _ _ (unchanged s _ _) (printing s _ _)
call_payload-Keeps rs_314 pkt len s = Ensures-if (PayloadKeeps s) (len == 0) _ _ (unchanged s _ _) (
    Ensures->>= (PayloadKeeps s) (get_elem? pkt 3) _ λ marker.
      Ensures-if (PayloadKeeps s) ((marker == 0x5e) || (marker == 0x04)) _ _ (printing s _ _)
        (unchanged s _ _))
call_payload-Keeps oci_314 pkt len s =
    Ensures-if (PayloadKeeps s) (len == 0) _ _ (unchanged s _ _) (
      Ensures->>= (PayloadKeeps s) (get_elem? pkt 3) _ λ marker.
        Ensures-if (PayloadKeeps s) (marker == 0x5e) _ _ (printing s _ _) (unchanged s _ _))
call_payload-Keeps sp_314 pkt len s =
    Ensures-if (PayloadKeeps s) (len == 0) _ _ (unchanged s _ _) (printing s _ _)
call_payload-Keeps sns_314 pkt len s =
    Ensures-if (PayloadKeeps s) (len == 0) _ _ (unchanged s _ _) (printing s _ _)

pub msg_data_id_handle-Keeps :
    (ph : List (PktHandle PayloadFunc)) (ver type : ℕ) (pkt : List ℕ) (len : ℕ) (s : TnsSession)
    → Ensures (PayloadKeeps s) (msg_data_id_handle ph ver type pkt len s)
unfolding msg_data_id_handle
msg_data_id_handle-Keeps [] ver type pkt len s = unchanged s code_data_id []
msg_data_id_handle-Keeps (h ∷ ph) ver type pkt len s =
    dispatch (msg_data_id_handle-Keeps ph ver type pkt len s) (payload_match h ver type)
  where
    dispatch :
        Ensures (PayloadKeeps s) (msg_data_id_handle ph ver type pkt len s)
        → (f : Option PayloadFunc)
        → Ensures (PayloadKeeps s) (elim f [
          | some func ↦ call_payload func pkt len s
          | none ↦ msg_data_id_handle ph ver type pkt len s
        ])
    dispatch rest none = rest
    dispatch rest (some f) = call_payload-Keeps f pkt len s
