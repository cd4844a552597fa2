-- ===== src/Connect/Faithful.antt =====
-- What the conversion keeps apart: descriptors without double quotes, and no others, since a quote is
-- copied as it stands.
use tnsparser.Base.{
  ℕ, ◌*◌, ◌≡◌, ◌≢◌, refl, sym, ap, ◌∙◌, true, Option, some, List, [], ◌∷◌, ◌++◌, append_assoc,
  length, drop, All, eq_of_some,
}
use tnsparser.Connect.{JsonResult, parse_connect_data_to_json}
use tnsparser.Connect.Descriptor.{
  Param, text, group, Params, one, more, print, member, members, json, PlainNames, LongEnough,
}
use tnsparser.Connect.Refine.{parse_connect_data_to_json-print}

abbrev pub IsUnquoted : ℕ → Type 0
IsUnquoted c = c ≢ 0x22

-- No name and no text has a double quote.
abbrev mutual
  pub Unquoted : Param → Type 0
  Unquoted (text n v) = All IsUnquoted n × All IsUnquoted v
  Unquoted (group n ps) = All IsUnquoted n × AllUnquoted ps

  pub AllUnquoted : Params → Type 0
  AllUnquoted (one p) = Unquoted p
  AllUnquoted (more p ps) = Unquoted p × AllUnquoted ps

-- Where the first quote stands is known.
split :
    (n m r s : List ℕ)
    → All IsUnquoted n
    → All IsUnquoted m
    → n ++ (0x22 ∷ r) ≡ m ++ (0x22 ∷ s)
    → (n ≡ m) × (r ≡ s)
split [] [] r s hn hm e = (refl, ap (drop 1) e)
split [] (c ∷ m) r s hn hm e = absurd (let same : 0x22 ≡ c = cc e in hm.0 (sym same))
split (c ∷ n) [] r s hn hm e = absurd (let same : c ≡ 0x22 = cc e in hn.0 same)
split (c ∷ n) (d ∷ m) r s hn hm e =
    let same : c ≡ d = cc e in
    let (tails, rest) = split n m r s hn.1 hm.1 (ap (drop 1) e) in (cc (same, tails), rest)

text-shape :
    (n v r : List ℕ) → member (text n v) ++ r ≡ n ++ (0x22 ∷ b':' ∷ 0x22 ∷ (v ++ (0x22 ∷ r)))
unfolding member
text-shape n v r = simp append_assoc

group-shape :
    (n r : List ℕ) (ps : Params)
    → member (group n ps) ++ r ≡ n ++ (0x22 ∷ b':' ∷ b'{' ∷ 0x22 ∷ (members ps ++ (b'}' ∷ r)))
unfolding member
group-shape n r ps = simp append_assoc

more-shape :
    (p : Param) (ps : Params) (r : List ℕ)
    → members (more p ps) ++ r ≡ member p ++ (b',' ∷ 0x22 ∷ (members ps ++ r))
unfolding members
more-shape p ps r = append_assoc (member p) (b',' ∷ 0x22 ∷ members ps) r

one-shape : (p : Param) (r : List ℕ) → members (one p) ++ r ≡ member p ++ r
unfolding members
one-shape p r = refl

text-eq : (n m v w : List ℕ) → n ≡ m → v ≡ w → text n v ≡ text m w
text-eq n m v w e f = cc

group-eq : (n m : List ℕ) (ps qs : Params) → n ≡ m → ps ≡ qs → group n ps ≡ group m qs
group-eq n m ps qs e f = cc

more-eq : (p q : Param) (ps qs : Params) → p ≡ q → ps ≡ qs → more p ps ≡ more q qs
more-eq p q ps qs e f = cc

-- A text is no group, and the end of a group no comma.
text_no_group : (r s : List ℕ) → b':' ∷ 0x22 ∷ r ≡ b':' ∷ b'{' ∷ s → ⊥
text_no_group r s e = cc

end_no_comma : (r s : List ℕ) → b'}' ∷ r ≡ b',' ∷ s → ⊥
end_no_comma r s e = cc

-- Two texts, with what stands behind their names.
text-split :
    (n m v w r s : List ℕ)
    → Unquoted (text n v)
    → Unquoted (text m w)
    → member (text n v) ++ r ≡ member (text m w) ++ s
    → (text n v ≡ text m w) × (r ≡ s)
text-split n m v w r s hp hq e =
    let (names, rest) = split n m _ _ hp.0 hq.0 (sym (text-shape n v r) ∙ (e ∙ text-shape m w s)) in
    let (texts, behind) = split v w r s hp.1 hq.1 (ap (drop 2) rest) in
    (text-eq n m v w names texts, behind)

text-group :
    (n m v r s : List ℕ) (qs : Params)
    → All IsUnquoted n
    → All IsUnquoted m
    → member (text n v) ++ r ≡ member (group m qs) ++ s
    → ⊥
text-group n m v r s qs hn hm e =
    let (names, rest) = split n m _ _ hn hm (sym (text-shape n v r) ∙ (e ∙ group-shape m s qs)) in
    text_no_group _ _ rest

group-group :
    (n m r s : List ℕ) (ps qs : Params)
    → All IsUnquoted n
    → All IsUnquoted m
    → member (group n ps) ++ r ≡ member (group m qs) ++ s
    → (n ≡ m) × (members ps ++ (b'}' ∷ r) ≡ members qs ++ (b'}' ∷ s))
group-group n m r s ps qs hn hm e =
    let (names, rest) = split n m _ _ hn hm (sym (group-shape n r ps) ∙ (e ∙ group-shape m s qs)) in
    (names, ap (drop 3) rest)

mutual
  member-split :
      (p q : Param) (r s : List ℕ)
      → Unquoted p
      → Unquoted q
      → member p ++ r ≡ member q ++ s
      → (p ≡ q) × (r ≡ s)
  member-split (text n v) (text m w) r s hp hq e = text-split n m v w r s hp hq e
  member-split (text n v) (group m qs) r s hp hq e = absurd (text-group n m v r s qs hp.0 hq.0 e)
  member-split (group n ps) (text m w) r s hp hq e =
      absurd (text-group m n w s r ps hq.0 hp.0 (sym e))
  member-split (group n ps) (group m qs) r s hp hq e =
      let (names, rest) = group-group n m r s ps qs hp.0 hq.0 e in
      let (parts, behind) = members-split ps qs r s hp.1 hq.1 rest in
      (group-eq n m ps qs names parts, behind)

  members-split :
      (ps qs : Params) (r s : List ℕ)
      → AllUnquoted ps
      → AllUnquoted qs
      → members ps ++ (b'}' ∷ r) ≡ members qs ++ (b'}' ∷ s)
      → (ps ≡ qs) × (r ≡ s)
  members-split (one p) (one q) r s hp hq e =
      let (same, rest) =
        member-split p q (b'}' ∷ r) (b'}' ∷ s) hp hq (sym (one-shape p _) ∙ (e ∙ one-shape q _)) in
      (ap one same, ap (drop 1) rest)
  members-split (one p) (more q qs) r s hp hq e =
      let (same, rest) =
        member-split p q (b'}' ∷ r) (b',' ∷ 0x22 ∷ (members qs ++ (b'}' ∷ s))) hp hq.0
          (sym (one-shape p _) ∙ (e ∙ more-shape q qs (b'}' ∷ s))) in
      absurd (end_no_comma _ _ rest)
  members-split (more p ps) (one q) r s hp hq e =
      let (same, rest) =
        member-split p q (b',' ∷ 0x22 ∷ (members ps ++ (b'}' ∷ r))) (b'}' ∷ s) hp.0 hq
          (sym (more-shape p ps (b'}' ∷ r)) ∙ (e ∙ one-shape q _)) in
      absurd (end_no_comma _ _ (sym rest))
  members-split (more p ps) (more q qs) r s hp hq e =
      let (same, rest) =
        member-split p q (b',' ∷ 0x22 ∷ (members ps ++ (b'}' ∷ r)))
          (b',' ∷ 0x22 ∷ (members qs ++ (b'}' ∷ s))) hp.0 hq.0
          (sym (more-shape p ps (b'}' ∷ r)) ∙ (e ∙ more-shape q qs (b'}' ∷ s))) in
      let (others, behind) = members-split ps qs r s hp.1 hq.1 (ap (drop 2) rest) in
      (more-eq p q ps qs same others, behind)

json-injective : (p q : Param) → Unquoted p → Unquoted q → json p ≡ json q → p ≡ q
unfolding json
json-injective p q hp hq e = (member-split p q (b'}' ∷ []) (b'}' ∷ []) hp hq (ap (drop 2) e)).0

-- What the converter makes of a descriptor with a buffer of twice its length, as its caller gives it.
abbrev pub converted : Param → List ℕ → Option JsonResult
converted p rest =
    parse_connect_data_to_json (some (print p ++ rest)) (length (print p)) true
      (2 * length (print p))

-- Of descriptors with plain names and texts and no double quote in them, of which each text parameter
-- has two characters at least in its name and its text, the conversion loses nothing: if two have the
-- same result, whatever stands behind them in memory, they are the same descriptor.
pub parse_connect_data_to_json-injective :
    (p q : Param) (behind_p behind_q : List ℕ)
    → PlainNames p
    → PlainNames q
    → LongEnough p
    → LongEnough q
    → Unquoted p
    → Unquoted q
    → converted p behind_p ≡ converted q behind_q
    → p ≡ q
parse_connect_data_to_json-injective p q behind_p behind_q plain_p plain_q long_p long_q hp hq e =
    let done_p = (parse_connect_data_to_json-print p behind_p plain_p long_p).0 in
    let done_q = (parse_connect_data_to_json-print q behind_q plain_q long_q).0 in
    json-injective p q hp hq
      (ap (λ (r : JsonResult). r.text) (eq_of_some (sym done_p ∙ (e ∙ done_q))))
