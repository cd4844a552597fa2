-- ===== src/RingQueue/Examples.antt =====
-- The ring at a concrete state, in which its contents reach round its end.
use std.Path.{transport}
use mathlib.Core.Quot.{Quot, mk}
use tnsparser.Base.{◌≡◌, refl, false, Option, List, [], ◌∷◌, arith}
use tnsparser.Base.Int.{pos}
use tnsparser.RingQueue.{RingQueue, next_index}
use tnsparser.RingQueue.Walk.{walk, contents}
use tnsparser.RingQueue.Refine.{Holds}
use tnsparser.RingQueue.Runs.{
  Call, put, get, signal, waits, refused, done, got, answers, Buffer, buffer_call, buffer_answers,
  Shows, answers-buffer,
}
use tnsparser.RingQueue.Seen.{Bounded}
use tnsparser.RingQueue.Views.{Ring, Alike, view, Ring-Bounded}

abbrev ring : RingQueue
ring = record {
  queue = 30 ∷ 10 ∷ 20 ∷ [];
  rindex = 1;
  windex = 0;
  size = pos 2;
  max_size = pos 3;
  abort_request = false;
}

ring-Holds : Holds ring 3 2
unfolding walk next_index
ring-Holds = record {
  max_size = refl;
  size = refl;
  room = omega arith;
  rindex = omega arith;
  windex = refl;
  filled = omega arith;
}

-- The ring is full behind the first call, and empty behind the sixth.
abbrev calls : List Call
calls = put 40 ∷ put 50 ∷ get ∷ get ∷ get ∷ get ∷ signal ∷ get ∷ []

abbrev buffer : Buffer
buffer = record { items = 10 ∷ 20 ∷ []; aborted = false }

calls_answered :
    buffer_answers 3 calls buffer
    ≡ done ∷ waits ∷ got 10 ∷ got 20 ∷ got 40 ∷ waits ∷ done ∷ refused ∷ []
unfolding buffer_answers buffer_call
calls_answered = refl

ring-Shows : Shows 3 ring buffer
unfolding contents next_index
ring-Shows = record { filled = 2; holds = ring-Holds; same = refl; aborted = refl }

answers-buffer_example : answers calls ring ≡ buffer_answers 3 calls buffer
answers-buffer_example = answers-buffer 3 calls ring buffer ring-Shows

Ring-Bounded_example :
    (same : Quot (Alike 3) ≡ Option (Bounded 3)) × ((r : Ring 3) → transport same (mk r) ≡ view 3 r)
Ring-Bounded_example = Ring-Bounded 3 (omega arith)
