-- ===== src/Util/Dump.antt =====
-- Which bytes the hex dump reads.
use native.Mathlib.Decide.{dec_lt}
use tnsparser.Base.{
  ℕ, zero, suc, ◌+◌, ◌-◌, ◌%◌, ◌≤◌, ◌<◌, ◌≡◌, refl, inl, inr, true, none, some, List, arith, ◌==◌,
  length, get_elem?-lt, get_elem?-ge, Bool-cases, ne→eqb,
}
use tnsparser.Util.{
  Printed, print_ansi_at_line, end_of_line, dump_loop, last_line, debug_hex_println,
}

print_ansi_at_line-total :
    (ptr : List ℕ) (i len : ℕ)
    → i + len ≤ length ptr
    → (out : List Printed) × (print_ansi_at_line ptr i len ≡ some out)
unfolding print_ansi_at_line
print_ansi_at_line-total ptr i zero h = (_, refl)
print_ansi_at_line-total ptr i (suc len) h =
    let (c, e) = get_elem?-lt ptr i (omega arith) in
    let (rest, f) = print_ansi_at_line-total ptr (suc i) len (omega arith) in rw (e, f) (_, refl)

print_ansi_at_line-short :
    (ptr : List ℕ) (i len : ℕ)
    → i ≤ length ptr
    → length ptr < i + len
    → print_ansi_at_line ptr i len ≡ none
unfolding print_ansi_at_line
print_ansi_at_line-short ptr i zero h k = absurd (omega arith)
print_ansi_at_line-short ptr i (suc len) h k = elim (dec_lt i (length ptr)) [
  | yes p ↦
      let (c, e) = get_elem?-lt ptr i p in
      rw (e, print_ansi_at_line-short ptr (suc i) len (omega arith) (omega arith))
  | no p ↦ rw (get_elem?-ge ptr i (omega arith))
]

end_of_line-total :
    (ptr : List ℕ) (i : ℕ) → i < length ptr → (out : List Printed) × (end_of_line ptr i ≡ some out)
unfolding end_of_line
end_of_line-total ptr i h = elim (Bool-cases ((i + 1) % 32 == 0)) [
  | inl full ↦
      let (line, e) = print_ansi_at_line-total ptr (i - 31) 32 (ground arith) in
      rw (full, e) (_, refl)
  | inr part ↦ rw part (_, refl)
]

dump_loop-total :
    (ptr : List ℕ) (rounds i : ℕ)
    → i + rounds ≤ length ptr
    → (out : List Printed) × (dump_loop ptr rounds i ≡ some out)
unfolding dump_loop
dump_loop-total ptr zero i h = (_, refl)
dump_loop-total ptr (suc rounds) i h =
    let (c, e) = get_elem?-lt ptr i (omega arith) in
    let (line, f) = end_of_line-total ptr i (omega arith) in
    let (rest, g) = dump_loop-total ptr rounds (suc i) (omega arith) in rw (e, f, g) (_, refl)

last_line-total :
    (ptr : List ℕ) (len : ℕ)
    → len < length ptr
    → (out : List Printed) × (last_line ptr len ≡ some out)
unfolding last_line
last_line-total ptr len h = elim (Bool-cases (len == 0)) [
  | inl empty ↦ rw empty (_, refl)
  | inr more ↦
      let (line, e) = print_ansi_at_line-total ptr (len - len % 32) (len % 32 + 1) (omega arith) in
      rw (more, e) (_, refl)
]

last_line-short : (ptr : List ℕ) (len : ℕ) → 0 < len → length ptr ≡ len → last_line ptr len ≡ none
unfolding last_line
last_line-short ptr len pos e =
    rw (ne→eqb len 0 (omega arith))
      (print_ansi_at_line-short ptr (len - len % 32) (len % 32 + 1) (omega arith) (omega arith))

-- The dump of a buffer that is not empty, when it is switched on, faults where nothing can be read
-- behind the buffer: its last line takes one byte too many.
pub debug_hex_println-over_read :
    (ptr : List ℕ) (len : ℕ) → 0 < len → length ptr ≡ len → debug_hex_println true ptr len ≡ none
unfolding debug_hex_println
debug_hex_println-over_read ptr len pos e =
    let (lines, f) = dump_loop-total ptr len 0 (omega arith) in
    rw (f, last_line-short ptr len pos e)

-- With one byte more to read behind the buffer the dump prints to its end.
pub debug_hex_println-total :
    (ptr : List ℕ) (len : ℕ)
    → len < length ptr
    → (out : List Printed) × (debug_hex_println true ptr len ≡ some out)
unfolding debug_hex_println
debug_hex_println-total ptr len h =
    let (lines, f) = dump_loop-total ptr len 0 (omega arith) in
    let (last, g) = last_line-total ptr len h in rw (f, g) (_, refl)
