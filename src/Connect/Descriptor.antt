-- ===== src/Connect/Descriptor.antt =====
-- The connect descriptors that clients send, as trees, in their two notations: the parenthesised
-- text of the packet and the JSON text that the converter is after.
use tnsparser.Base.{ℕ, ◌+◌, ◌≤◌, ◌≢◌, List, [], ◌∷◌, ◌++◌, length, All}

-- (NAME=text) or (NAME=(...)(...)), with at least one parameter in a group.
mutual
  pub data Param : Type 0 where
    text : List ℕ → List ℕ → Param
    group : List ℕ → Params → Param

  pub data Params : Type 0 where
    one : Param → Params
    more : Param → Params → Params

-- The packet's notation, `inner` without the parenthesis that opens it.
unfoldable mutual
  pub inner : Param → List ℕ
  inner (text n v) = n ++ (b'=' ∷ (v ++ (b')' ∷ [])))
  inner (group n ps) = n ++ (b'=' ∷ (print_all ps ++ (b')' ∷ [])))

  pub print_all : Params → List ℕ
  print_all (one p) = b'(' ∷ inner p
  print_all (more p ps) = b'(' ∷ (inner p ++ print_all ps)

unfoldable pub print : Param → List ℕ
print p = b'(' ∷ inner p

-- "NAME":"text" or "NAME":{...}, each without the quote that opens it.
unfoldable mutual
  pub member : Param → List ℕ
  member (text n v) = n ++ (0x22 ∷ b':' ∷ 0x22 ∷ (v ++ (0x22 ∷ [])))
  member (group n ps) = n ++ (0x22 ∷ b':' ∷ b'{' ∷ 0x22 ∷ (members ps ++ (b'}' ∷ [])))

  pub members : Params → List ℕ
  members (one p) = member p
  members (more p ps) = member p ++ (b',' ∷ 0x22 ∷ members ps)

-- The JSON object with the one parameter.
unfoldable pub json : Param → List ℕ
json p = b'{' ∷ 0x22 ∷ (member p ++ (b'}' ∷ []))

-- Characters that stand for themselves in both notations of this converter.
abbrev pub IsPlain : ℕ → Type 0
IsPlain c = (c ≢ b'(') × (c ≢ b')') × (c ≢ b'=') × (c ≢ 0)

abbrev mutual
  pub PlainNames : Param → Type 0
  PlainNames (text n v) = All IsPlain n × All IsPlain v
  PlainNames (group n ps) = All IsPlain n × AllPlainNames ps

  pub AllPlainNames : Params → Type 0
  AllPlainNames (one p) = PlainNames p
  AllPlainNames (more p ps) = PlainNames p × AllPlainNames ps

-- Every text parameter has two characters at least in its name and its text together.
abbrev mutual
  pub LongEnough : Param → Type 0
  LongEnough (text n v) = 2 ≤ length n + length v
  LongEnough (group n ps) = AllLongEnough ps

  pub AllLongEnough : Params → Type 0
  AllLongEnough (one p) = LongEnough p
  AllLongEnough (more p ps) = LongEnough p × AllLongEnough ps
