-- ===== src/Wire.antt =====
-- Bytes in memory and the fields of a TNS packet: the macros of src/oracle_tns.h and NTOHS of
-- src/common.h. Memory is the list of the bytes that can be read from a pointer on, and `none` is a
-- read behind it. A 16-bit load is that of a little-endian machine.
pub mod Offsets
pub mod Fields
pub mod Head
mod Examples
use tnsparser.Base.{
  ℕ, suc, ◌+◌, ◌*◌, ◌/◌, ◌%◌, Option, none, some, List, [], ◌∷◌, ◌==◌, if◌then◌else◌, get_elem?,
  drop, ◌>>=◌,
}
use tnsparser.Wire.Offsets.{
  offset_tns_accept_data_len, offset_tns_connect_data_len, offset_tns_connect_data_offset,
  offset_tns_connect_version, offset_tns_connect_version_compatible, offset_tns_data,
  offset_tns_data_id, offset_tns_len, offset_tns_refuse_data_len, offset_tns_type,
}

-- *(ushort*)(p + offset)
unfoldable pub load_ushort : List ℕ → ℕ → Option ℕ
load_ushort mem offset = do
  low ← get_elem? mem offset
  high ← get_elem? mem (suc offset)
  some (low + 256 * high)

-- ntohs swaps the bytes of a 16-bit number.
unfoldable pub ntohs : ℕ → ℕ
ntohs val = val % 256 * 256 + val / 256 % 256

unfoldable pub load_ntohs : List ℕ → ℕ → Option ℕ
unfolding load_ushort ntohs
load_ntohs mem offset = load_ushort mem offset >>= λ val. some (ntohs val)

-- The string at an offset, up to its terminator.
unfoldable pub c_string : List ℕ → Option (List ℕ)
c_string [] = none
c_string (c ∷ rest) = if c == 0 then some [] else (c_string rest >>= λ s. some (c ∷ s))

unfoldable pub pkt_len : List ℕ → Option ℕ
unfolding load_ntohs
pkt_len pkt = load_ntohs pkt offset_tns_len

unfoldable pub pkt_type : List ℕ → Option ℕ
pkt_type pkt = get_elem? pkt offset_tns_type

abbrev pub pkt_data : List ℕ → List ℕ
pkt_data pkt = drop offset_tns_data pkt

unfoldable pub connect_ver : List ℕ → Option ℕ
unfolding load_ntohs
connect_ver pkt = load_ntohs (pkt_data pkt) offset_tns_connect_version

unfoldable pub connect_ver_compatible : List ℕ → Option ℕ
unfolding load_ntohs
connect_ver_compatible pkt = load_ntohs (pkt_data pkt) offset_tns_connect_version_compatible

unfoldable pub connect_data_len : List ℕ → Option ℕ
unfolding load_ntohs
connect_data_len pkt = load_ntohs (pkt_data pkt) offset_tns_connect_data_len

unfoldable pub connect_data_offset : List ℕ → Option ℕ
unfolding load_ntohs
connect_data_offset pkt = load_ntohs (pkt_data pkt) offset_tns_connect_data_offset

unfoldable pub connect_data : List ℕ → Option (List ℕ)
unfolding connect_data_offset
connect_data pkt = connect_data_offset pkt >>= λ offset. some (drop offset pkt)

-- ACCEPT_VER reads at the offset of the connect packet's version, which is the same.
unfoldable pub accept_ver : List ℕ → Option ℕ
unfolding load_ntohs
accept_ver pkt = load_ntohs (pkt_data pkt) offset_tns_connect_version

unfoldable pub accept_data_len : List ℕ → Option ℕ
unfolding load_ntohs
accept_data_len pkt = load_ntohs (pkt_data pkt) offset_tns_accept_data_len

-- REFUSE_DATA_LEN reads from the packet's head, not from its data: two bytes behind the length.
unfoldable pub refuse_data_len : List ℕ → Option ℕ
unfolding load_ntohs
refuse_data_len pkt = load_ntohs pkt offset_tns_refuse_data_len

unfoldable pub data_id : List ℕ → Option ℕ
data_id pkt = get_elem? (pkt_data pkt) offset_tns_data_id
