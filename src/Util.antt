-- ===== src/Util.antt =====
-- The hex dump: src/util.c. What printf writes is the list of the calls' effects, and `none` is a
-- read behind the memory that the pointer reaches.
pub mod Dump
pub mod Lines
mod Examples
use tnsparser.Base.{
  ℕ, zero, suc, ◌+◌, ◌-◌, ◌%◌, Bool, true, false, ◌&&◌, Option, none, some, List, [], ◌∷◌, ◌++◌,
  leb, ◌==◌, if◌then◌else◌, get_elem?, ◌>>=◌,
}

-- "%02x ", "%c" of a byte or of '.', "\n", the three blanks, and the two lines around a dump.
pub data Printed : Type 0 where
  hex ansi : ℕ → Printed
  newline blanks dump_end : Printed
  dump_start : ℕ → Printed

-- `g_hexdump_enbale`, which nothing sets.
abbrev pub g_hexdump_enable : Bool
g_hexdump_enable = false

-- From ptr[i] on.
unfoldable pub print_ansi_at_line : List ℕ → ℕ → ℕ → Option (List Printed)
print_ansi_at_line ptr i zero = some []
print_ansi_at_line ptr i (suc len) = do
  c ← get_elem? ptr i
  rest ← print_ansi_at_line ptr (suc i) len
  some (ansi (if leb 0x20 c && leb c 0x7e then c else b'.') ∷ rest)

-- What one round of the dump's loop prints behind the byte: a full line's text.
unfoldable pub end_of_line : List ℕ → ℕ → Option (List Printed)
end_of_line ptr i =
    if (i + 1) % 32 == 0
    then (print_ansi_at_line ptr (i - 31) 32 >>= λ line. some (line ++ newline ∷ []))
    else some []

unfoldable pub dump_loop : List ℕ → ℕ → ℕ → Option (List Printed)
dump_loop ptr zero i = some []
dump_loop ptr (suc rounds) i = do
  c ← get_elem? ptr i
  line ← end_of_line ptr i
  rest ← dump_loop ptr rounds (suc i)
  some (hex c ∷ (line ++ rest))

-- for (tmp = i; tmp % 32 != 0; tmp++), which ends within 32 rounds.
unfoldable pub pad_loop : ℕ → ℕ → List Printed
pad_loop zero tmp = []
pad_loop (suc fuel) tmp =
    let rest = blanks ∷ pad_loop fuel (tmp + 1) in if tmp % 32 == 0 then [] else rest

-- The line behind the loop: one byte more than what is left of the data.
unfoldable pub last_line : List ℕ → ℕ → Option (List Printed)
last_line ptr i = if i == 0 then some [] else print_ansi_at_line ptr (i - i % 32) (i % 32 + 1)

unfoldable pub debug_hex_println : Bool → List ℕ → ℕ → Option (List Printed)
debug_hex_println false ptr len = some []
debug_hex_println true ptr len = do
  lines ← dump_loop ptr len 0
  last ← last_line ptr len
  some (dump_start len ∷ (lines ++ (pad_loop 32 len ++ (last ++ dump_end ∷ []))))
