-- ===== src/ListQueue/Examples.antt =====
-- The packet queue at a concrete sequence of calls.
use tnsparser.Base.{true, false, none, List, [], ◌∷◌}
use tnsparser.ListQueue.{Store}
use tnsparser.ListQueue.Fifo.{Call, put, get, flush, abort, Fifo}

abbrev new : Store
new = record { heap = []; q = record { first = none; last = none; num = 0; abort_request = false } }

abbrev calls : List Call
calls = put 7 ∷ put 8 ∷ get true ∷ get true ∷ get true ∷ put 9 ∷ abort ∷ get true ∷ flush ∷ []
