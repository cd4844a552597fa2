-- ===== src/Session/Init.antt =====
-- sess_init clears the whole table.
use tnsparser.Base.{
  ℕ, suc, ◌≡◌, refl, ap, sym, ◌∙◌, subst, List, [], ◌∷◌, ◌++◌, append_assoc, arith, length,
  length-append, set, replicate,
}
use tnsparser.Session.{TnsSession, zero_session, max_sess_node, init_loop, sess_init}

set-length :
    (before rest : List TnsSession) (s t : TnsSession)
    → set (before ++ s ∷ rest) (length before) t ≡ before ++ t ∷ rest
set-length [] rest s t = refl
set-length (x ∷ before) rest s t = ap (◌∷◌ x) (set-length before rest s t)

init_loop-replicate :
    (before rest : List TnsSession) (i : ℕ)
    → i ≡ length before
    → init_loop (length rest) i (before ++ rest) ≡ before ++ replicate (length rest) zero_session
unfolding init_loop
init_loop-replicate before [] i e = refl
init_loop-replicate before (s ∷ rest) i e =
    ap (init_loop (length rest) (suc i)) written
    ∙ init_loop-replicate (before ++ zero_session ∷ []) rest (suc i)
        (omega (arith, e, length-append before (zero_session ∷ [])))
    ∙ append_assoc before (zero_session ∷ []) (replicate (length rest) zero_session)
  where
    written : set (before ++ s ∷ rest) i zero_session ≡ (before ++ zero_session ∷ []) ++ rest
    written =
        ap (λ j. set (before ++ s ∷ rest) j zero_session) e
        ∙ set-length before rest s zero_session
        ∙ sym (append_assoc before (zero_session ∷ []) rest)

-- Whatever the table of 32 slots held, sess_init leaves 32 cleared sessions.
pub sess_init-replicate :
    (table : List TnsSession)
    → length table ≡ max_sess_node
    → sess_init table ≡ replicate max_sess_node zero_session
unfolding sess_init
sess_init-replicate table e =
    subst (λ n. init_loop n 0 table ≡ replicate n zero_session) e
      (init_loop-replicate [] table 0 refl)
