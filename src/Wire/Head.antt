-- ===== src/Wire/Head.antt =====
-- The head of a packet: struct TNS_pkt_head of src/oracle_tns.h, and what the macros read of it.
use tnsparser.Base.{ℕ, ◌+◌, ◌*◌, ◌/◌, ◌%◌, ◌<◌, ◌≡◌, refl, ap, some, List, [], ◌∷◌, ◌++◌, arith}
use tnsparser.Wire.{load_ushort, load_ntohs, ntohs, pkt_len, pkt_type, pkt_data, refuse_data_len}
use tnsparser.Wire.Fields.{pkt_cksum, pkt_resv, pkt_head_cksum}

pub record TnsPktHead : Type 0 where
  pub len : ℕ
  pub pkt_cksum : ℕ
  pub type : ℕ
  pub resv : ℕ
  pub head_ckcum : ℕ

-- Each field fits its C type.
pub record Fits (h : TnsPktHead) : Type 0 where
  pub len : h.len < 65536
  pub pkt_cksum : h.pkt_cksum < 65536
  pub type : h.type < 256
  pub resv : h.resv < 256
  pub head_ckcum : h.head_ckcum < 65536

-- The eight bytes of a head on the network, which has the high byte of a number first.
abbrev pub on_network : TnsPktHead → List ℕ
on_network h =
    h.len / 256
    ∷ h.len % 256
    ∷ h.pkt_cksum / 256
    ∷ h.pkt_cksum % 256
    ∷ h.type
    ∷ h.resv
    ∷ h.head_ckcum / 256
    ∷ h.head_ckcum % 256
    ∷ []

pub ntohs-network : (n : ℕ) → n < 65536 → ntohs (n / 256 + 256 * (n % 256)) ≡ n
unfolding ntohs
ntohs-network n h = omega arith

-- Of a head whose fields fit their types, as it comes from the network, with anything behind it:
-- PKT_LEN, PKT_CKSUM, PKT_TYPE and PKT_RESV give the fields back and PKT_DATA what stands behind
-- the head; PKT_HEAD_CKSUM and REFUSE_DATA_LEN both give the checksum of the packet.
pub on_network-fields :
    (h : TnsPktHead) (payload : List ℕ)
    → Fits h
    → let pkt = on_network h ++ payload in
      (pkt_len pkt ≡ some h.len)
      × (pkt_cksum pkt ≡ some h.pkt_cksum)
      × (pkt_type pkt ≡ some h.type)
      × (pkt_resv pkt ≡ some h.resv)
      × (pkt_data pkt ≡ payload)
      × (pkt_head_cksum pkt ≡ some h.pkt_cksum)
      × (refuse_data_len pkt ≡ some h.pkt_cksum)
unfolding pkt_len pkt_cksum pkt_type pkt_resv pkt_head_cksum refuse_data_len load_ntohs load_ushort
on_network-fields h payload fits =
    let len = ap some (ntohs-network h.len fits.len) in
    let cksum = ap some (ntohs-network h.pkt_cksum fits.pkt_cksum) in
    (len, cksum, refl, refl, refl, cksum, cksum)
