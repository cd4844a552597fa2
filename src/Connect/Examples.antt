-- ===== src/Connect/Examples.antt =====
-- The converter at concrete descriptors, and the theorems about it at such inputs.
use tnsparser.Base.{
  ◌+◌, ◌*◌, ◌≤◌, ◌≡◌, refl, sym, ◌∙◌, ℕ, List, some, none, true, [], ◌∷◌, ◌++◌, arith, length,
  replicate,
}
use tnsparser.Connect.{
  JsonResult, convert, convert_loop, convert_char, finish, strcat, success,
  parse_connect_data_to_json,
}
use tnsparser.Connect.Descriptor.{Param, text, group, one, more, print, json}
use tnsparser.Connect.Refine.{parse_connect_data_to_json-print}
use tnsparser.Connect.Faithful.{converted, parse_connect_data_to_json-injective}
use tnsparser.Connect.Smuggled.{smuggled, parse_connect_data_to_json-smuggled}
use tnsparser.Connect.Whole.{rewritten, parse_connect_data_to_json-rewritten}
use tnsparser.Connect.Overflow.{parse_connect_data_to_json-equals}

-- (D=(C=(H=h))(S=x)) with a short and a longer text.
abbrev two_levels : Param
two_levels = group (b'D' ∷ []) (
    more (group (b'C' ∷ []) (one (text (b'H' ∷ []) (b'h' ∷ []))))
      (one (text (b'S' ∷ []) (b'x' ∷ b'y' ∷ []))))

converted_text :
    convert (b'(' ∷ b'A' ∷ b'=' ∷ b'x' ∷ b')' ∷ []) 5 10
    ≡ some (record {
      ret = success;
      text = b'{' ∷ 0x22 ∷ b'A' ∷ 0x22 ∷ b':' ∷ 0x22 ∷ b'x' ∷ 0x22 ∷ b'}' ∷ [];
      outlen = 10;
    })
unfolding convert convert_loop convert_char finish strcat
converted_text = refl

parse_connect_data_to_json-print_example :
    (parse_connect_data_to_json
        (some (print two_levels ++ 0 ∷ []))
        (length (print two_levels))
        true
        (2 * length (print two_levels))
      ≡ some
          (record { ret = success; text = json two_levels; outlen = length (json two_levels) + 1 }))
    × (length (json two_levels) + 1 ≤ 2 * length (print two_levels))
parse_connect_data_to_json-print_example =
    parse_connect_data_to_json-print two_levels (0 ∷ []) (omega arith) (omega arith)

parse_connect_data_to_json-equals_example :
    parse_connect_data_to_json
      (some (b'(' ∷ (replicate 3 b'=' ++ b')' ∷ [])))
      (3 + 2)
      true
      (2 * (3 + 2))
    ≡ none
parse_connect_data_to_json-equals_example = parse_connect_data_to_json-equals 3 []

parse_connect_data_to_json-rewritten_example :
    parse_connect_data_to_json
      (some (b'(' ∷ (b'A' ∷ b'=' ∷ b'=' ∷ []) ++ b')' ∷ (0 ∷ [])))
      (3 + 2)
      true
      10
    ≡ rewritten b'(' (b'A' ∷ b'=' ∷ b'=' ∷ []) b')' 10
parse_connect_data_to_json-rewritten_example =
    parse_connect_data_to_json-rewritten b'(' b')' (b'A' ∷ b'=' ∷ b'=' ∷ []) (0 ∷ []) 10
      (omega arith)

same_result : converted two_levels (0 ∷ []) ≡ converted two_levels (7 ∷ 8 ∷ [])
same_result =
    (parse_connect_data_to_json-print two_levels (0 ∷ []) (omega arith) (omega arith)).0
    ∙ sym (parse_connect_data_to_json-print two_levels (7 ∷ 8 ∷ []) (omega arith) (omega arith)).0

parse_connect_data_to_json-injective_example : two_levels ≡ two_levels
parse_connect_data_to_json-injective_example =
    parse_connect_data_to_json-injective two_levels two_levels (0 ∷ []) (7 ∷ 8 ∷ []) (omega arith)
      (omega arith) (omega arith) (omega arith) (omega arith) (omega arith) same_result

parse_connect_data_to_json-smuggled_example :
    let a : List ℕ = b'A' ∷ [] in
    let b : List ℕ = b'B' ∷ [] in
    let v : List ℕ = b'x' ∷ b'y' ∷ [] in
    (r : JsonResult) × (converted (group (b'D' ∷ []) (one (text a (smuggled v b v)))) (0 ∷ [])
      ≡ some r)
    × (converted (group (b'D' ∷ []) (more (text a v) (one (text b v)))) (0 ∷ []) ≡ some r)
    × (r.ret ≡ success)
parse_connect_data_to_json-smuggled_example =
    parse_connect_data_to_json-smuggled (b'D' ∷ []) (b'A' ∷ []) (b'B' ∷ []) (b'x' ∷ b'y' ∷ [])
      (b'x' ∷ b'y' ∷ []) (0 ∷ []) (omega arith) (omega arith) (omega arith) (omega arith)
      (omega arith) (omega arith) (omega arith)
