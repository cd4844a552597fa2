-- ===== src/Process.antt =====
-- The handling of one packet: src/process.c, and the rounds of process_thread of src/main.c. The
-- session table is an argument and part of the result; so are the clock and the printed lines.
pub mod Text
pub mod Keys
pub mod Size
pub mod Names
pub mod Capacity
pub mod Answer
pub mod Sent
mod Examples
use tnsparser.Base.{
  ℕ, zero, suc, ◌+◌, ◌/◌, ◌%◌, Bool, Option, none, some, List, [], ◌∷◌, ◌++◌, ltb, ◌==◌, ◌&&◌, not,
  true, false, drop, if◌then◌else◌, get_elem?, set, ◌>>=◌,
}
use tnsparser.Wire.{ntohs}
use tnsparser.Session.{Direction, SessKey, TnsSession, sess_must_find_node}
use tnsparser.Network.{Action, result_push, result_drop, Packet}
use tnsparser.Tns.Types.{ErrorCode, Line, Done}
use tnsparser.Tns.Handlers.{CJson, codes}
use tnsparser.Tns.Parse.{tns_protocol_parse}

-- "%u" of a number, with a round for each digit.
unfoldable pub decimal : ℕ → ℕ → List ℕ
decimal zero n = []
decimal (suc digits) n =
    let rest = decimal digits (n / 10) in
    if ltb n 10 then (48 + n) ∷ [] else rest ++ (48 + n % 10) ∷ []

-- inet_ntoa of an address in network order, which a little-endian machine has loaded.
unfoldable pub inet_ntoa : ℕ → List ℕ
inet_ntoa a =
    decimal 3 (a % 256)
    ++ (b'.'
        ∷ (decimal 3 (a / 256 % 256)
            ++ (b'.' ∷ (decimal 3 (a / 65536 % 256) ++ (b'.' ∷ decimal 3 (a / 16777216 % 256))))))

-- sprintf(…, "[%s:%u -> %s:%u]", …)
unfoldable pub sess_desc : SessKey → List ℕ
sess_desc key =
    b'['
    ∷ (inet_ntoa key.sip
        ++ (b':'
            ∷ (decimal 5 (ntohs key.sport)
                ++ (codes " -> "
                    ++ (inet_ntoa key.dip
                        ++ (b':' ∷ (decimal 5 (ntohs key.dport) ++ b']' ∷ [])))))))

pub record Processed : Type 0 where
  pub ret : ErrorCode
  pub table : List TnsSession
  pub out : List Line

-- action != RESULT_DROP
unfoldable pub is_pushed : Action → Bool
is_pushed result_push = true
is_pushed result_drop = false

module _ (lib : CJson) (malloc : ℕ → Bool) where
  unfoldable pub mainprocess :
      List TnsSession → ℕ → List ℕ → ℕ → SessKey → Direction → Option Processed
  mainprocess g_sess_arry now pkt len key dir = do
    (i, table) ← sess_must_find_node g_sess_arry key dir now
    sess ← get_elem? table i
    let sess' = record sess { cur_dir = dir; cur_sess_desc = sess_desc key }
    done ← tns_protocol_parse lib malloc pkt len sess'
    some (record { ret = done.code; table = set table i done.sess; out = done.out })

  -- One round of process_thread, with the time of the round; empty packets are passed over.
  unfoldable pub process_packet : List TnsSession → ℕ × Packet → Option (List TnsSession)
  process_packet g_sess_arry (now, pkt) =
      if not (pkt.len == 0) && is_pushed pkt.action
      then (mainprocess g_sess_arry now (drop pkt.data_at pkt.buf) pkt.len pkt.key pkt.dir
          >>= λ done. some done.table)
      else some g_sess_arry

  -- The packets in turn, as process_thread takes them from the queue.
  unfoldable pub process_all : List TnsSession → List (ℕ × Packet) → Option (List TnsSession)
  process_all g_sess_arry [] = some g_sess_arry
  process_all g_sess_arry (pkt ∷ rest) =
      process_packet g_sess_arry pkt >>= λ table. process_all table rest
