-- ===== src/Tns/TextAnswer.antt =====
-- What the connect packet's handler reports of a JSON text, by what the library finds in it.
use tnsparser.Base.{
  ℕ, ◌≡◌, refl, inl, inr, Bool, Option, none, some, Option-cases, List, [], ◌∷◌, ◌++◌,
}
use tnsparser.Session.{TnsSession}
use tnsparser.Tns.Types.{Line, Done, code_success, service_name, host, user}
use tnsparser.Tns.Handlers.{
  CJson, codes, string_line, report_root, report_found, report_description,
}

module _ (lib : CJson) (malloc : ℕ → Bool) where
  -- The lines for an item that is looked up: one with its string if it is there and has one, else
  -- none.
  pub data Reports (line : List ℕ → Line) (item : Option lib.Item) (out : List Line) : Type 0 where
    one_line :
        (i : lib.Item) (s : List ℕ)
        → item ≡ some i
        → lib.value_string i ≡ some s
        → out ≡ line s ∷ []
        → Reports line item out
    absent : item ≡ none → out ≡ [] → Reports line item out
    no_string :
        (i : lib.Item)
        → item ≡ some i
        → lib.value_string i ≡ none
        → out ≡ []
        → Reports line item out

  string_line-Reports :
      (line : List ℕ → Line) (item : Option lib.Item)
      → Reports line item (string_line lib malloc line item)
  unfolding string_line
  string_line-Reports line none = absent refl refl
  string_line-Reports line (some i) = elim (Option-cases (lib.value_string i)) [
    | inl e ↦ no_string i refl e (rw (string_line, e) refl)
    | inr (s, e) ↦ one_line i s refl e (rw (string_line, e) refl)
  ]

  -- The answer to a connect text, by what the library finds in its JSON text: the session, one line,
  -- and below DESCRIPTION the lines for SERVICE_NAME, HOST and USER; or none, where a null pointer
  -- is followed.
  pub data TextAnswer (text : List ℕ) (sess : TnsSession) (line : Line) (answer : Option Done)
      : Type 0 where
    not_parsed :
        lib.parse text ≡ none
        → answer ≡ some (record { code = code_success; sess = sess; out = line ∷ [] })
        → TextAnswer text sess line answer
    no_description :
        (root : lib.Item)
        → lib.parse text ≡ some root
        → lib.get_object_item root (codes "DESCRIPTION") ≡ none
        → answer ≡ some (record { code = code_success; sess = sess; out = line ∷ [] })
        → TextAnswer text sess line answer
    reported :
        (root desc conn_data cid : lib.Item) (names hosts users : List Line)
        → lib.parse text ≡ some root
        → lib.get_object_item root (codes "DESCRIPTION") ≡ some desc
        → lib.get_object_item desc (codes "CONNECT_DATA") ≡ some conn_data
        → lib.get_object_item conn_data (codes "CID") ≡ some cid
        → Reports service_name (lib.get_object_item conn_data (codes "SERVICE_NAME")) names
        → Reports host (lib.get_object_item cid (codes "HOST")) hosts
        → Reports user (lib.get_object_item cid (codes "USER")) users
        → answer
          ≡ some (record {
            code = code_success;
            sess = sess;
            out = line ∷ (names ++ (hosts ++ users));
          })
        → TextAnswer text sess line answer
    no_connect_data :
        (root desc : lib.Item)
        → lib.parse text ≡ some root
        → lib.get_object_item root (codes "DESCRIPTION") ≡ some desc
        → lib.get_object_item desc (codes "CONNECT_DATA") ≡ none
        → answer ≡ none
        → TextAnswer text sess line answer
    no_cid :
        (root desc conn_data : lib.Item)
        → lib.parse text ≡ some root
        → lib.get_object_item root (codes "DESCRIPTION") ≡ some desc
        → lib.get_object_item desc (codes "CONNECT_DATA") ≡ some conn_data
        → lib.get_object_item conn_data (codes "CID") ≡ none
        → answer ≡ none
        → TextAnswer text sess line answer

  pub report_root-TextAnswer :
      (text : List ℕ) (sess : TnsSession) (line : Line)
      → TextAnswer text sess line (report_root lib malloc sess line (lib.parse text))
  unfolding report_root report_found report_description
  report_root-TextAnswer text sess line = elim (Option-cases (lib.parse text)) [
    | inl unparsed ↦ not_parsed unparsed (rw unparsed)
    | inr (root, parsed) ↦ elim (Option-cases (lib.get_object_item root (codes "DESCRIPTION"))) [
      | inl missing ↦ no_description root parsed missing (rw (parsed, missing))
      | inr (desc, described) ↦
          elim (Option-cases (lib.get_object_item desc (codes "CONNECT_DATA"))) [
            | inl missing ↦
                no_connect_data root desc parsed described missing (rw (parsed, described, missing))
            | inr (conn_data, e) ↦
                elim (Option-cases (lib.get_object_item conn_data (codes "CID"))) [
                  | inl missing ↦
                      no_cid root desc conn_data parsed described e missing
                        (rw (parsed, described, e, missing))
                  | inr (cid, f) ↦
                      reported root desc conn_data cid _ _ _ parsed described e f
                        (string_line-Reports service_name _) (string_line-Reports host _)
                        (string_line-Reports user _) (rw (parsed, described, e, f) refl)
                ]
          ]
    ]
  ]
