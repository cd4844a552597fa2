-- ===== src/Wire/Examples.antt =====
-- The head of a concrete packet.
use tnsparser.Base.{◌≡◌, some, [], ◌∷◌, ◌++◌, arith}
use tnsparser.Wire.{pkt_len, pkt_type, pkt_data, refuse_data_len}
use tnsparser.Wire.Fields.{pkt_cksum, pkt_resv, pkt_head_cksum}
use tnsparser.Wire.Head.{TnsPktHead, on_network, on_network-fields}

-- A refuse packet of 300 bytes.
abbrev head : TnsPktHead
head = record { len = 300; pkt_cksum = 513; type = 4; resv = 1; head_ckcum = 1027 }

on_network-fields_example :
    let pkt = on_network head ++ (34 ∷ 0 ∷ []) in
    (pkt_len pkt ≡ some 300)
    × (pkt_cksum pkt ≡ some 513)
    × (pkt_type pkt ≡ some 4)
    × (pkt_resv pkt ≡ some 1)
    × (pkt_data pkt ≡ 34 ∷ 0 ∷ [])
    × (pkt_head_cksum pkt ≡ some 513)
    × (refuse_data_len pkt ≡ some 513)
on_network-fields_example = on_network-fields head (34 ∷ 0 ∷ []) (record {
  len = omega arith;
  pkt_cksum = omega arith;
  type = omega arith;
  resv = omega arith;
  head_ckcum = omega arith;
})
