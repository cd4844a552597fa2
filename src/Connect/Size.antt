-- ===== src/Connect/Size.antt =====
-- The JSON text of a descriptor fits into twice the room of the packet's notation.
use tnsparser.Base.{◌+◌, ◌*◌, ◌≤◌, ◌∷◌, [], arith, length, length-append}
use tnsparser.Connect.Descriptor.{
  Param, text, group, Params, one, more, print, inner, print_all, member, members, json, LongEnough,
  AllLongEnough,
}

mutual
  unfolding inner print_all member members

  length-member : (p : Param) → LongEnough p → length (member p) + 2 ≤ 2 * length (inner p)
  length-member (text n v) h = simp length-append (omega arith)
  length-member (group n ps) h = simp length-append (omega (arith, length-members ps h))

  length-members :
      (ps : Params) → AllLongEnough ps → length (members ps) + 4 ≤ 2 * length (print_all ps)
  length-members (one p) h = omega (arith, length-member p h)
  length-members (more p ps) (h, hs) =
      simp length-append (omega (arith, length-member p h, length-members ps hs))

pub length-json : (p : Param) → LongEnough p → length (json p) + 1 ≤ 2 * length (print p)
unfolding json print
length-json p h = omega (arith, length-append (member p) (b'}' ∷ []), length-member p h)
