-- ===== src/Util/Examples.antt =====
-- The hex dump at a concrete buffer.
use tnsparser.Base.{◌≡◌, refl, true, none, some, [], ◌∷◌, arith, replicate}
use tnsparser.Util.{debug_hex_println}
use tnsparser.Util.Lines.{dumped, debug_hex_println-lines}
use tnsparser.Util.Dump.{debug_hex_println-over_read}

debug_hex_println-over_read_example : debug_hex_println true (b'a' ∷ 7 ∷ []) 2 ≡ none
debug_hex_println-over_read_example =
    debug_hex_println-over_read (b'a' ∷ 7 ∷ []) 2 (omega arith) refl

-- A whole line and eight bytes of the next.
debug_hex_println-lines_example :
    debug_hex_println true (replicate 41 b'a') 40 ≡ some (dumped (replicate 41 b'a') 40)
debug_hex_println-lines_example = debug_hex_println-lines (replicate 41 b'a') 40 (omega arith)
