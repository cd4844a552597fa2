-- ===== src/Util/Lines.antt =====
-- What the hex dump prints, line by line.
use native.Mathlib.Decide.{dec_lt}
use tnsparser.Base.{
  ℕ, zero, suc, ◌+◌, ◌-◌, ◌*◌, ◌/◌, ◌%◌, ◌≤◌, ◌<◌, ◌≡◌, refl, ap, subst, true, some, List, [], ◌∷◌,
  ◌++◌, map, append_assoc, arith, leb, ◌&&◌, if◌then◌else◌, length, get_elem?, get_elem?-lt, ne→eqb,
  take, drop, replicate, eq_of_some,
}
use tnsparser.Util.{
  Printed, hex, ansi, newline, blanks, dump_start, dump_end, print_ansi_at_line, end_of_line,
  dump_loop, pad_loop, last_line, debug_hex_println,
}

-- The character of a byte, or a dot.
abbrev shown : ℕ → Printed
shown c = ansi (if leb 0x20 c && leb c 0x7e then c else b'.')

-- Lines of 32 bytes: their numbers, then their characters.
abbrev full_lines : ℕ → List ℕ → List Printed
full_lines zero xs = []
full_lines (suc n) xs =
    map hex (take 32 xs) ++ ((map shown (take 32 xs) ++ newline ∷ []) ++ full_lines n (drop 32 xs))

-- The characters of the last line, one more than the bytes it has; an empty dump has none.
abbrev last_characters : ℕ → ℕ → List ℕ → List Printed
last_characters zero r xs = []
last_characters (suc len) r xs = map shown (take (r + 1) xs)

-- The whole lines, then a line of the bytes that are left, filled up with blanks.
abbrev pub dumped : List ℕ → ℕ → List Printed
dumped ptr len =
    let left = drop (32 * (len / 32)) ptr in
    dump_start len
    ∷ ((full_lines (len / 32) ptr ++ map hex (take (len % 32) left))
        ++ (replicate ((32 - len % 32) % 32) blanks
            ++ (last_characters len (len % 32) left ++ dump_end ∷ [])))

drop-get_elem? : (xs : List ℕ) (i c : ℕ) → get_elem? xs i ≡ some c → drop i xs ≡ c ∷ drop (suc i) xs
drop-get_elem? [] i c e = absurd (cc e)
drop-get_elem? (x ∷ xs) zero c e = ap (λ y. y ∷ xs) (eq_of_some e)
drop-get_elem? (x ∷ xs) (suc i) c e = drop-get_elem? xs i c e

drop-drop : (m n : ℕ) (xs : List ℕ) → drop m (drop n xs) ≡ drop (n + m) xs
drop-drop m zero xs = let e : 0 + m ≡ m = omega arith in rw e refl
drop-drop zero (suc n) [] = let e : suc n + 0 ≡ suc n = omega arith in rw e refl
drop-drop (suc m) (suc n) [] = let e : suc n + suc m ≡ suc (n + suc m) = omega arith in rw e refl
drop-drop m (suc n) (x ∷ xs) =
    let e : suc n + m ≡ suc (n + m) = omega arith in rw e (drop-drop m n xs)

print_ansi_at_line_lem :
    (ptr : List ℕ) (i len : ℕ)
    → i + len ≤ length ptr
    → print_ansi_at_line ptr i len ≡ some (map shown (take len (drop i ptr)))
unfolding print_ansi_at_line
print_ansi_at_line_lem ptr i zero h = refl
print_ansi_at_line_lem ptr i (suc len) h =
    let (c, e) = get_elem?-lt ptr i (omega arith) in
    rw (e, print_ansi_at_line_lem ptr (suc i) len (omega arith), drop-get_elem? ptr i c e) refl

-- Bytes within a line, in front of what the loop prints behind them.
within_line :
    (ptr : List ℕ) (k i : ℕ)
    → i % 32 + k < 32
    → i + k ≤ length ptr
    → dump_loop ptr k i ≡ some (map hex (take k (drop i ptr)))
unfolding dump_loop end_of_line
within_line ptr zero i h room = refl
within_line ptr (suc k) i h room =
    let (c, e) = get_elem?-lt ptr i (omega arith) in
    rw
      (
        e,
        ne→eqb ((i + 1) % 32) 0 (omega arith),
        within_line ptr k (suc i) (omega arith) (omega arith),
        drop-get_elem? ptr i c e,
      )
      refl

-- The last bytes of the line that starts at `j`.
to_line_end :
    (ptr : List ℕ) (k rounds i j : ℕ) (out : List Printed)
    → j % 32 ≡ 0
    → i + suc k ≡ j + 32
    → k < 32
    → j + 32 ≤ length ptr
    → dump_loop ptr rounds (j + 32) ≡ some out
    → dump_loop ptr (suc k + rounds) i
      ≡ some (
          map hex (take (suc k) (drop i ptr))
          ++ ((map shown (take 32 (drop j ptr)) ++ newline ∷ []) ++ out))
unfolding dump_loop end_of_line
to_line_end ptr zero rounds i j out start at k room rest =
    let (c, e) = get_elem?-lt ptr i (omega arith) in
    let first : i - 31 ≡ j = omega arith in
    let next : suc i ≡ j + 32 = omega arith in
    let one : suc zero + rounds ≡ suc rounds = omega arith in
    let full : (i + 1) % 32 ≡ 0 = omega arith in
    rw
      (
        one,
        e,
        full,
        first,
        next,
        print_ansi_at_line_lem ptr j 32 room,
        rest,
        drop-get_elem? ptr i c e,
      )
      refl
to_line_end ptr (suc k) rounds i j out start at lt room rest =
    let (c, e) = get_elem?-lt ptr i (omega arith) in
    let more : suc (suc k) + rounds ≡ suc (suc k + rounds) = omega arith in
    rw
      (
        more,
        e,
        ne→eqb ((i + 1) % 32) 0 (omega arith),
        to_line_end ptr k rounds (suc i) j out start (omega arith) (omega arith) room rest,
        drop-get_elem? ptr i c e,
      )
      refl

shape : (a b c d : List Printed) → a ++ (b ++ (c ++ d)) ≡ (a ++ (b ++ c)) ++ d
shape a b c d = rw (append_assoc a (b ++ c) d, append_assoc b c d) refl

-- The loop from the start of a line on.
lines_lem :
    (ptr : List ℕ) (n r j : ℕ)
    → j % 32 ≡ 0
    → r < 32
    → j + 32 * n + r ≤ length ptr
    → dump_loop ptr (32 * n + r) j
      ≡ some (full_lines n (drop j ptr) ++ map hex (take r (drop (j + 32 * n) ptr)))
lines_lem ptr zero r j start lt room =
    let none_more : 32 * 0 + r ≡ r = omega arith in
    let here : j + 32 * 0 ≡ j = omega arith in
    rw (none_more, here, within_line ptr r j (omega arith) (omega arith)) refl
lines_lem ptr (suc n) r j start lt room =
    let rest = lines_lem ptr n r (j + 32) (omega arith) lt (omega arith) in
    let line =
      to_line_end ptr 31 (32 * n + r) j j _ start (omega arith) (omega arith) (omega arith) rest in
    let more : 32 * suc n + r ≡ suc 31 + (32 * n + r) = omega arith in
    let there : j + 32 * suc n ≡ j + 32 + 32 * n = omega arith in
    rw (more, line, there, drop-drop 32 j ptr)
      (ap some (
        shape (map hex (take 32 (drop j ptr))) (map shown (take 32 (drop j ptr)) ++ newline ∷ [])
          (full_lines n (drop (j + 32) ptr)) _))

pad_loop_lem :
    (k fuel tmp : ℕ)
    → k ≤ fuel
    → k < 32
    → tmp % 32 + k ≡ 32
    → pad_loop fuel tmp ≡ replicate k blanks
unfolding pad_loop
pad_loop_lem zero fuel tmp h lt e = absurd (omega arith)
pad_loop_lem (suc zero) zero tmp h lt e = absurd (omega arith)
pad_loop_lem (suc zero) (suc zero) tmp h lt e = rw (ne→eqb (tmp % 32) 0 (omega arith)) refl
pad_loop_lem (suc zero) (suc (suc fuel)) tmp h lt e =
    let full : (tmp + 1) % 32 ≡ 0 = omega arith in rw (ne→eqb (tmp % 32) 0 (omega arith), full) refl
pad_loop_lem (suc (suc k)) zero tmp h lt e = absurd (omega arith)
pad_loop_lem (suc (suc k)) (suc fuel) tmp h lt e =
    rw
      (
        ne→eqb (tmp % 32) 0 (omega arith),
        pad_loop_lem (suc k) fuel (tmp + 1) (omega arith) (omega arith) (omega arith),
      )
      refl

last_line_lem :
    (ptr : List ℕ) (len : ℕ)
    → len < length ptr
    → last_line ptr len ≡ some (last_characters len (len % 32) (drop (32 * (len / 32)) ptr))
unfolding last_line
last_line_lem ptr zero h = refl
last_line_lem ptr (suc len) h =
    let at : suc len - suc len % 32 ≡ 32 * (suc len / 32) = omega arith in
    rw (ne→eqb (suc len) 0 (omega arith), at)
      (print_ansi_at_line_lem ptr (32 * (suc len / 32)) (suc len % 32 + 1) (omega arith))

pad_loop-whole : (fuel tmp : ℕ) → tmp % 32 ≡ 0 → pad_loop fuel tmp ≡ []
unfolding pad_loop
pad_loop-whole zero tmp e = refl
pad_loop-whole (suc fuel) tmp e = rw e refl

padding_lem : (len : ℕ) → pad_loop 32 len ≡ replicate ((32 - len % 32) % 32) blanks
padding_lem len = elim (dec_lt 0 (len % 32)) [
  | no whole ↦
      let no_blanks : (32 - len % 32) % 32 ≡ 0 = omega arith in
      rw no_blanks (pad_loop-whole 32 len (omega arith))
  | yes part ↦ pad_loop_lem ((32 - len % 32) % 32) 32 len (omega arith) (omega arith) (omega arith)
]

dump_loop-len :
    (ptr : List ℕ) (len : ℕ)
    → len < length ptr
    → dump_loop ptr len 0
      ≡ some (full_lines (len / 32) ptr ++ map hex (take (len % 32) (drop (32 * (len / 32)) ptr)))
dump_loop-len ptr len h =
    subst
      (λ k.
        dump_loop ptr k 0
        ≡ some
            (full_lines (len / 32) ptr ++ map hex (take (len % 32) (drop (32 * (len / 32)) ptr))))
      (omega arith)
      (subst
        (λ m.
          dump_loop ptr (32 * (len / 32) + len % 32) 0
          ≡ some (full_lines (len / 32) ptr ++ map hex (take (len % 32) (drop m ptr))))
        (omega arith) (lines_lem ptr (len / 32) (len % 32) 0 refl (omega arith) (omega arith)))

-- The hex dump, when it is switched on and a byte can be read behind what it dumps, prints the lines
-- of the reference: whole lines of 32 bytes with their numbers and then their characters, and a line
-- of the bytes that are left, filled up with blanks, whose characters are one more than its bytes.
pub debug_hex_println-lines :
    (ptr : List ℕ) (len : ℕ)
    → len < length ptr
    → debug_hex_println true ptr len ≡ some (dumped ptr len)
unfolding debug_hex_println
debug_hex_println-lines ptr len h =
    rw (dump_loop-len ptr len h, last_line_lem ptr len h, padding_lem len) refl
