-- ===== src/Visible/Examples.antt =====
-- The search for printable characters at a concrete input.
use tnsparser.Base.{ℕ, ◌≡◌, refl, some, List, [], ◌∷◌, arith}
use tnsparser.Visible.{
  Found, parse_continuous_visible_characters, visible_loop, visible_step, visible,
}
use tnsparser.Visible.Longest.{Finds, parse_continuous_visible_characters-Finds}

-- Two runs of two characters, and one of one.
abbrev input : List ℕ
input = 0 ∷ b'a' ∷ b'b' ∷ 0x80 ∷ b'c' ∷ b'd' ∷ 7 ∷ b'e' ∷ []

-- Of two longest runs the later one is taken.
later_run : parse_continuous_visible_characters input 8 ≡ some (record { ptr = 4; outlen = 3 })
unfolding parse_continuous_visible_characters visible_loop visible_step visible
later_run = refl

parse_continuous_visible_characters-Finds_example :
    (f : Found) × (parse_continuous_visible_characters input 8 ≡ some f) × Finds input 8 f
parse_continuous_visible_characters-Finds_example =
    parse_continuous_visible_characters-Finds input 8 (omega arith)
