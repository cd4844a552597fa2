-- ===== src/Visible.antt =====
-- The longest run of printable characters: parse_continuous_visible_characters of
-- src/oracle_tns.c. Pointers into `bufin` are offsets; `bufin` is the memory that can be read, and
-- `none` a read behind it. A signed `char` above 127 is negative, so it is below 0x20 as well as
-- above 0x7e, and the test on the byte is the same.
pub mod Longest
mod Examples
use tnsparser.Base.{
  ℕ, zero, suc, ◌+◌, ◌-◌, Bool, ◌&&◌, Option, some, List, leb, ltb, if◌then◌else◌, get_elem?, ◌>>=◌,
}

unfoldable pub visible : ℕ → Bool
visible c = leb 0x20 c && leb c 0x7e

-- `tmp`, `continuous_times` and `*ptr - bufin`.
pub record Runs : Type 0 where
  pub current : ℕ
  pub longest : ℕ
  pub start : ℕ

-- A run that ends in front of offset `i` replaces the longest one unless it is shorter.
unfoldable pub close_run : ℕ → Runs → Runs
close_run i s =
    if leb s.longest s.current then record s { longest = s.current; start = i - s.current } else s

-- The loop's body at offset `i`, for the character there.
unfoldable pub visible_step : ℕ → ℕ → Runs → Runs
unfolding close_run
visible_step i c s =
    if visible c
    then record s { current = s.current + 1 }
    else record (close_run i s) { current = 0 }

unfoldable pub visible_loop : List ℕ → ℕ → ℕ → Runs → Option Runs
visible_loop bufin zero i s = some s
visible_loop bufin (suc rounds) i s =
    get_elem? bufin i >>= λ c. visible_loop bufin rounds (suc i) (visible_step i c s)

-- `*ptr - bufin` and `*outlen`, one more than the length of the run.
pub record Found : Type 0 where
  pub ptr : ℕ
  pub outlen : ℕ

unfoldable pub found : Runs → Found
found s = record { ptr = s.start; outlen = s.longest + 1 }

-- Behind the loop a run that is still open is closed.
unfoldable pub parse_continuous_visible_characters : List ℕ → ℕ → Option Found
unfolding found
parse_continuous_visible_characters bufin inlen = do
  s ← visible_loop bufin inlen 0 (record { current = 0; longest = 0; start = 0 })
  some (found (if ltb 0 s.current then close_run inlen s else s))
