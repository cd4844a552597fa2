-- ===== src/Wire/Offsets.antt =====
-- Where the fields stand: the offsets of src/oracle_tns.h, from the packet on or from its data on.
use tnsparser.Base.{ℕ}

abbrev pub tns_head_len : ℕ
tns_head_len = 8

abbrev pub offset_tns_len : ℕ
offset_tns_len = 0

abbrev pub offset_tns_cksum : ℕ
offset_tns_cksum = 2

abbrev pub offset_tns_type : ℕ
offset_tns_type = 4

abbrev pub offset_tns_resv : ℕ
offset_tns_resv = 5

abbrev pub offset_tns_connect_version : ℕ
offset_tns_connect_version = 0

abbrev pub offset_tns_connect_version_compatible : ℕ
offset_tns_connect_version_compatible = 2

abbrev pub offset_tns_connect_data_len : ℕ
offset_tns_connect_data_len = 16

abbrev pub offset_tns_connect_data_offset : ℕ
offset_tns_connect_data_offset = 18

abbrev pub offset_tns_accept_data_len : ℕ
offset_tns_accept_data_len = 30

abbrev pub offset_tns_accept_data_offset : ℕ
offset_tns_accept_data_offset = 32

abbrev pub offset_tns_refuse_process_cause : ℕ
offset_tns_refuse_process_cause = 0

abbrev pub offset_tns_refuse_sys_cause : ℕ
offset_tns_refuse_sys_cause = 1

abbrev pub offset_tns_refuse_data_len : ℕ
offset_tns_refuse_data_len = 2

abbrev pub offset_tns_refuse_data_offset : ℕ
offset_tns_refuse_data_offset = 4

abbrev pub offset_tns_data_falg : ℕ
offset_tns_data_falg = 0

abbrev pub offset_tns_data_id : ℕ
offset_tns_data_id = 2

abbrev pub offset_tns_data_id_sub : ℕ
offset_tns_data_id_sub = 3

-- OFFSET_TNS_DATA
abbrev pub offset_tns_data : ℕ
offset_tns_data = tns_head_len

abbrev pub offset_tns_data_offset : ℕ
offset_tns_data_offset = 4
