-- ===== src/Tns/Table.antt =====
-- The handler tables and the search through them: struct Pkt_handle, msg_data_id_handles and
-- msg_data_id_handle. A function pointer is a value of an enumeration of the functions.
use tnsparser.Base.{ℕ, ◌&&◌, Option, none, some, List, [], ◌∷◌, ◌==◌, if◌then◌else◌}
use tnsparser.Session.{TnsSession}
use tnsparser.Tns.Types.{
  code_data_id, Done, tns_313, tns_314, tns_data_id_sns, tns_data_id_sp, tns_data_id_oci,
  tns_data_id_rs, tns_314_data_id_sns, tns_314_data_id_sp, tns_314_data_id_oci, tns_314_data_id_rs,
}
use tnsparser.Tns.Payload.{
  tns_313_rs, tns_313_oci, tns_313_sp, tns_313_sns, tns_314_rs, tns_314_oci, tns_314_sp,
  tns_314_sns,
}

-- struct Pkt_handle, `none` for a null function pointer.
pub record PktHandle (F : Type 0) : Type 0 where
  pub version : ℕ
  pub type : ℕ
  pub func : Option F

pub data PayloadFunc : Type 0 where
  rs_313 oci_313 sp_313 sns_313 rs_314 oci_314 sp_314 sns_314 : PayloadFunc

-- The call through the pointer.
unfoldable pub call_payload : PayloadFunc → List ℕ → ℕ → TnsSession → Option Done
call_payload rs_313 = tns_313_rs
call_payload oci_313 = tns_313_oci
call_payload sp_313 = tns_313_sp
call_payload sns_313 = tns_313_sns
call_payload rs_314 = tns_314_rs
call_payload oci_314 = tns_314_oci
call_payload sp_314 = tns_314_sp
call_payload sns_314 = tns_314_sns

abbrev pub msg_data_id_handles : List (PktHandle PayloadFunc)
msg_data_id_handles =
    record { version = tns_313; type = tns_data_id_sns; func = some sns_313 }
    ∷ record { version = tns_313; type = tns_data_id_sp; func = some sp_313 }
    ∷ record { version = tns_313; type = tns_data_id_oci; func = some oci_313 }
    ∷ record { version = tns_313; type = tns_data_id_rs; func = some rs_313 }
    ∷ record { version = tns_314; type = tns_314_data_id_sns; func = some sns_314 }
    ∷ record { version = tns_314; type = tns_314_data_id_sp; func = some sp_314 }
    ∷ record { version = tns_314; type = tns_314_data_id_oci; func = some oci_314 }
    ∷ record { version = tns_314; type = tns_314_data_id_rs; func = some rs_314 }
    ∷ []

-- ph[i].func, if the version and the type are those of the packet.
unfoldable pub payload_match : PktHandle PayloadFunc → ℕ → ℕ → Option PayloadFunc
payload_match h ver type = if (h.version == ver) && (h.type == type) then h.func else none

-- The loop calls the first entry that matches and breaks; an entry with a null pointer is passed.
unfoldable pub msg_data_id_handle :
    List (PktHandle PayloadFunc) → ℕ → ℕ → List ℕ → ℕ → TnsSession → Option Done
msg_data_id_handle [] ver type pkt len sess =
    some (record { code = code_data_id; sess = sess; out = [] })
msg_data_id_handle (h ∷ ph) ver type pkt len sess = elim (payload_match h ver type) [
  | some func ↦ call_payload func pkt len sess
  | none ↦ msg_data_id_handle ph ver type pkt len sess
]
