-- ===== src/Session.antt =====
-- The session table: src/session.c and src/session.h, with the key of src/common.h. The clock is an
-- argument. A pointer into the table is the index of its slot; `sess_list`, which nothing uses, has
-- no field here.
pub mod Lookup
pub mod Init
mod Examples
use tnsparser.Base.{
  ℕ, zero, suc, Bool, ◌&&◌, Option, none, some, List, [], ◌∷◌, ◌==◌, if◌then◌else◌, set, replicate,
  ◌>>=◌,
}

pub data Direction : Type 0 where
  request response : Direction

-- enum sess_link_stat and enum sess_login_stat, which share the field `state`.
pub data SessState : Type 0 where
  stat_close stat_init stat_connect stat_resend stat_accept stat_refuse stat_data : SessState
  stat_loging_in stat_login_failed stat_login_success : SessState

-- Addresses and ports as they stand in the packet's headers, in network order.
pub record SessKey : Type 0 where
  pub sip : ℕ
  pub dip : ℕ
  pub sport : ℕ
  pub dport : ℕ

pub record TnsSession : Type 0 where
  pub key : SessKey
  pub version : ℕ
  pub version_compatible : ℕ
  pub state : SessState
  pub cur_dir : Direction
  pub update_time : ℕ
  pub cur_sess_desc : List ℕ

abbrev pub max_sess_node : ℕ
max_sess_node = 32

-- What memset(…, 0, …) leaves.
abbrev pub zero_key : SessKey
zero_key = record { sip = 0; dip = 0; sport = 0; dport = 0 }

abbrev pub zero_session : TnsSession
zero_session = record {
  key = zero_key;
  version = 0;
  version_compatible = 0;
  state = stat_close;
  cur_dir = request;
  update_time = 0;
  cur_sess_desc = [];
}

-- The key of the connection, seen from the client.
unfoldable pub sess_key : SessKey → Direction → SessKey
sess_key skey request = skey
sess_key skey response = record {
  sip = skey.dip;
  dip = skey.sip;
  sport = skey.dport;
  dport = skey.sport;
}

unfoldable pub same_key : SessKey → SessKey → Bool
same_key a b =
    (a.sip == b.sip) && ((a.dip == b.dip) && ((a.sport == b.sport) && (a.dport == b.dport)))

-- The first loop: the first slot with the key, with its time set; `none` if the loop runs out.
unfoldable pub find_sess : SessKey → ℕ → List TnsSession → Option (ℕ × List TnsSession)
find_sess key now [] = none
find_sess key now (tmp ∷ rest) =
    if same_key tmp.key key
    then some (0, record tmp { update_time = now } ∷ rest)
    else (find_sess key now rest >>= λ (i, rest'). some (suc i, tmp ∷ rest'))

-- The second loop. Its `if` ends in a semicolon, so it guards nothing: the block that takes the
-- slot and breaks runs at the first slot, and the search for the oldest one below it never does.
-- Behind the loop `i == MAX_SESS_NODE` needs an empty table, where the write goes outside it.
unfoldable pub take_slot : SessKey → List TnsSession → Option (ℕ × List TnsSession)
take_slot key [] = none
take_slot key (tmp ∷ rest) = some (0, record tmp { key = key; state = stat_init } ∷ rest)

-- What the first loop found, or else what the second one takes.
unfoldable pub found_or_taken :
    SessKey → List TnsSession → Option (ℕ × List TnsSession) → Option (ℕ × List TnsSession)
unfolding take_slot
found_or_taken key g_sess_arry (some found) = some found
found_or_taken key g_sess_arry none = take_slot key g_sess_arry

unfoldable pub sess_must_find_node :
    List TnsSession → SessKey → Direction → ℕ → Option (ℕ × List TnsSession)
unfolding found_or_taken
sess_must_find_node g_sess_arry skey dir now =
    found_or_taken (sess_key skey dir) g_sess_arry (find_sess (sess_key skey dir) now g_sess_arry)

unfoldable pub init_loop : ℕ → ℕ → List TnsSession → List TnsSession
init_loop zero i g_sess_arry = g_sess_arry
init_loop (suc rounds) i g_sess_arry = init_loop rounds (suc i) (set g_sess_arry i zero_session)

unfoldable pub sess_init : List TnsSession → List TnsSession
unfolding init_loop
sess_init g_sess_arry = init_loop 32 0 g_sess_arry
