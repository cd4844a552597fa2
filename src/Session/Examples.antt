-- ===== src/Session/Examples.antt =====
-- The session table at concrete sessions.
use tnsparser.Base.{ℕ, ◌≡◌, refl, ◌⊎◌, some, List, [], ◌∷◌}
use tnsparser.Session.{
  request, response, SessKey, TnsSession, zero_session, stat_init, stat_data, sess_key, same_key,
  find_sess, found_or_taken, take_slot, sess_must_find_node,
}
use tnsparser.Session.Lookup.{
  Touched, IsMissing, Taken, sess_must_find_node-cases, sess_must_find_node-response,
}

abbrev client : SessKey
client = record { sip = 1; dip = 2; sport = 3; dport = 4 }

abbrev busy : TnsSession
busy = record zero_session { key = client; state = stat_data }

abbrev other : SessKey
other = record client { sip = 5 }

-- A second connection takes over the slot of the first one, although another slot is free.
taken_over :
    sess_must_find_node (busy ∷ zero_session ∷ []) other request 9
    ≡ some (0, record busy { key = other; state = stat_init } ∷ zero_session ∷ [])
unfolding sess_must_find_node sess_key same_key find_sess found_or_taken take_slot
taken_over = refl

sess_must_find_node-cases_example :
    (i : ℕ) × (table' : List TnsSession) × (sess_must_find_node
        (busy ∷ zero_session ∷ [])
        other
        request
        9
      ≡ some (i, table'))
    × (Touched (sess_key other request) 9 i (busy ∷ zero_session ∷ []) table'
        ⊎ (IsMissing (sess_key other request) (busy ∷ zero_session ∷ [])
            × Taken (sess_key other request) i (busy ∷ zero_session ∷ []) table'))
sess_must_find_node-cases_example =
    sess_must_find_node-cases busy (zero_session ∷ []) other request 9

sess_must_find_node-response_example :
    (table'' : List TnsSession) × (sess_must_find_node
        (record busy { key = other; state = stat_init } ∷ zero_session ∷ [])
        (sess_key other response)
        response
        10
      ≡ some (0, table''))
    × Touched other 10 0
        (record busy { key = other; state = stat_init } ∷ zero_session ∷ [])
        table''
sess_must_find_node-response_example =
    sess_must_find_node-response (busy ∷ zero_session ∷ [])
      (record busy { key = other; state = stat_init } ∷ zero_session ∷ []) other 9 10 0 taken_over
