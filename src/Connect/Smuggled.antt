-- ===== src/Connect/Smuggled.antt =====
-- A double quote is copied as it stands, so that a text can end its JSON text and go on as another
-- parameter.
use tnsparser.Base.{
  ℕ, ◌+◌, ◌≤◌, ◌≡◌, refl, ap, ◌∙◌, some, List, ◌∷◌, ◌++◌, append_assoc, arith, length,
  length-append, All, All-append,
}
use tnsparser.Connect.{JsonResult, success}
use tnsparser.Connect.Descriptor.{text, group, one, more, member, members, json, IsPlain}
use tnsparser.Connect.Refine.{parse_connect_data_to_json-print}
use tnsparser.Connect.Faithful.{converted}

-- A text that ends a JSON text itself and goes on with another parameter.
abbrev pub smuggled : List ℕ → List ℕ → List ℕ → List ℕ
smuggled x b y = x ++ (0x22 ∷ b',' ∷ 0x22 ∷ (b ++ (0x22 ∷ b':' ∷ 0x22 ∷ y)))

json-smuggled :
    (d a b x y : List ℕ)
    → json (group d (one (text a (smuggled x b y))))
      ≡ json (group d (more (text a x) (one (text b y))))
unfolding json member members
json-smuggled d a b x y = simp append_assoc

quote-IsPlain : IsPlain 0x22
quote-IsPlain = (omega arith, omega arith, omega arith, omega arith)

comma-IsPlain : IsPlain b','
comma-IsPlain = (omega arith, omega arith, omega arith, omega arith)

colon-IsPlain : IsPlain b':'
colon-IsPlain = (omega arith, omega arith, omega arith, omega arith)

smuggled-IsPlain :
    (x b y : List ℕ) → All IsPlain x → All IsPlain b → All IsPlain y → All IsPlain (smuggled x b y)
smuggled-IsPlain x b y hx hb hy = All-append IsPlain x _ hx (
  quote-IsPlain,
  (
    comma-IsPlain,
    (
      quote-IsPlain,
      All-append IsPlain b _ hb (quote-IsPlain, (colon-IsPlain, (quote-IsPlain, hy))),
    ),
  ),
)

-- In a group with any name, of plain names and texts, of which each text parameter has two characters
-- at least in its name and its text: a parameter whose text has double quotes in the right places has
-- the same JSON text, of a successful conversion, as two parameters.
pub parse_connect_data_to_json-smuggled :
    (d a b x y behind : List ℕ)
    → All IsPlain d
    → All IsPlain a
    → All IsPlain b
    → All IsPlain x
    → All IsPlain y
    → 2 ≤ length a + length x
    → 2 ≤ length b + length y
    → (r : JsonResult) × (converted (group d (one (text a (smuggled x b y)))) behind ≡ some r)
      × (converted (group d (more (text a x) (one (text b y)))) behind ≡ some r)
      × (r.ret ≡ success)
parse_connect_data_to_json-smuggled d a b x y behind hd ha hb hx hy long_a long_b =
    let p = group d (one (text a (smuggled x b y))) in
    let q = group d (more (text a x) (one (text b y))) in
    let one_text =
      (parse_connect_data_to_json-print p behind (hd, (ha, smuggled-IsPlain x b y hx hb hy))
        long).0 in
    let two_texts =
      (parse_connect_data_to_json-print q behind (hd, ((ha, hx), (hb, hy))) (long_a, long_b)).0 in
    (
      record { ret = success; text = json q; outlen = length (json q) + 1 },
      one_text
          ∙ ap (λ (t : List ℕ). some (record { ret = success; text = t; outlen = length t + 1 }))
              (json-smuggled d a b x y),
      two_texts,
      refl,
    )
  where
    long : 2 ≤ length a + length (smuggled x b y)
    long =
        omega
          (arith, long_a, length-append x (0x22 ∷ b',' ∷ 0x22 ∷ (b ++ (0x22 ∷ b':' ∷ 0x22 ∷ y))))
