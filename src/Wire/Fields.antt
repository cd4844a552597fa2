-- ===== src/Wire/Fields.antt =====
-- The macros of src/oracle_tns.h that the parser does not use.
use tnsparser.Base.{ℕ, Option, some, List, get_elem?, drop, ◌>>=◌}
use tnsparser.Wire.{load_ntohs, pkt_data}
use tnsparser.Wire.Offsets.{
  offset_tns_accept_data_offset, offset_tns_cksum, offset_tns_data_falg, offset_tns_data_id_sub,
  offset_tns_data_offset, offset_tns_refuse_data_offset, offset_tns_refuse_process_cause,
  offset_tns_refuse_sys_cause, offset_tns_resv,
}

unfoldable pub pkt_cksum : List ℕ → Option ℕ
pkt_cksum pkt = load_ntohs pkt offset_tns_cksum

unfoldable pub pkt_resv : List ℕ → Option ℕ
pkt_resv pkt = get_elem? pkt offset_tns_resv

-- PKT_HEAD_CKSUM reads at the offset of the packet's checksum.
unfoldable pub pkt_head_cksum : List ℕ → Option ℕ
pkt_head_cksum pkt = load_ntohs pkt offset_tns_cksum

unfoldable pub accept_data_offset : List ℕ → Option ℕ
accept_data_offset pkt = load_ntohs (pkt_data pkt) offset_tns_accept_data_offset

unfoldable pub accept_data : List ℕ → Option (List ℕ)
unfolding accept_data_offset
accept_data pkt = accept_data_offset pkt >>= λ offset. some (drop offset pkt)

unfoldable pub refuse_pro_cause : List ℕ → Option ℕ
refuse_pro_cause pkt = get_elem? (pkt_data pkt) offset_tns_refuse_process_cause

unfoldable pub refuse_sys_cause : List ℕ → Option ℕ
refuse_sys_cause pkt = get_elem? (pkt_data pkt) offset_tns_refuse_sys_cause

-- Like REFUSE_DATA_LEN it adds its offset to the packet.
unfoldable pub refuse_data : List ℕ → List ℕ
refuse_data pkt = drop offset_tns_refuse_data_offset pkt

unfoldable pub data_flag : List ℕ → Option ℕ
data_flag pkt = load_ntohs (pkt_data pkt) offset_tns_data_falg

unfoldable pub data_id_sub : List ℕ → Option ℕ
data_id_sub pkt = get_elem? (pkt_data pkt) offset_tns_data_id_sub

-- So does DATA_DATA.
unfoldable pub data_data : List ℕ → List ℕ
data_data pkt = drop offset_tns_data_offset pkt
