-- ===== src/RingQueue/Views.antt =====
-- What can be seen of a ring: rings that no sequence of calls tells apart are one value of a type that
-- knows of no index.
use std.Path.{transport}
use std.Equiv.{Iso, iso_to_equiv}
use std.Univalence.{ua, ua-β}
use mathlib.Core.Quot
use mathlib.Core.Quot.{Quot, Quot-set}
use tnsparser.Base.{
  ℕ, suc, ◌+◌, ◌≤◌, ◌<◌, ◌≡◌, refl, sym, ap, ◌∙◌, false, Option, none, some, List, [], ◌∷◌, ◌++◌,
  arith, length, append-nil, append_assoc, replicate, length-replicate, set,
}
use tnsparser.Base.Int.{pos}
use tnsparser.RingQueue.{RingQueue, ring_queue_push, ring_queue_signal}
use tnsparser.RingQueue.Refine.{Holds, items, pushed, pushed-Holds}
use tnsparser.RingQueue.Walk.{walk, length-contents, contents}
use tnsparser.RingQueue.Seen.{
  Bounded, seen, seen-set, seen-some, buffer, seen-SameAnswers, SameAnswers-seen,
}
use tnsparser.RingQueue.Runs.{Call, answers, buffer_answers, answers-buffer, signal-Holds}

-- A valid ring with `cap` slots in use.
pub record Ring (cap : ℕ) : Type 0 where
  pub ring : RingQueue
  pub filled : ℕ
  pub holds : Holds ring cap filled

-- No sequence of calls tells the two rings apart.
abbrev pub Alike : (cap : ℕ) → Ring cap → Ring cap → Type 0
Alike cap r s = (cs : List Call) → answers cs r.ring ≡ answers cs s.ring

module _ (cap : ℕ) where
  unfoldable pub held : Ring cap → List ℕ
  held r = items r.ring cap r.filled

  pub held-bound : (r : Ring cap) → length (held r) ≤ cap
  unfolding held
  held-bound r =
      omega (arith, length-contents r.ring.queue cap r.ring.rindex r.filled, r.holds.filled)

  ring-buffer :
      (r : Ring cap) (cs : List Call)
      → answers cs r.ring ≡ buffer_answers cap cs (buffer (held r) r.ring.abort_request)
  unfolding held
  ring-buffer r cs =
      answers-buffer cap cs r.ring _
        (record { filled = r.filled; holds = r.holds; same = refl; aborted = refl })

  -- What a ring that is not aborted holds.
  unfoldable pub view : Ring cap → Option (Bounded cap)
  view r = seen cap r.ring.abort_request (held r) (held-bound r)

  Alike-view : (r s : Ring cap) → Alike cap r s → view r ≡ view s
  unfolding view
  Alike-view r s same =
      SameAnswers-seen cap r.ring.abort_request s.ring.abort_request (held r) (held s)
        (held-bound r) (held-bound s) (λ cs. sym (ring-buffer r cs) ∙ (same cs ∙ ring-buffer s cs))

  view-Alike : (r s : Ring cap) → view r ≡ view s → Alike cap r s
  unfolding view
  view-Alike r s e cs =
      ring-buffer r cs
      ∙ (seen-SameAnswers cap r.ring.abort_request s.ring.abort_request (held r) (held s)
            (held-bound r) (held-bound s) e cs
          ∙ sym (ring-buffer s cs))

  pushed_ring : (r : Ring cap) → ℕ → r.filled < cap → Ring cap
  pushed_ring r x room = record {
    ring = ring_queue_push (record (r.ring) { queue = set r.ring.queue r.ring.windex x });
    filled = suc r.filled;
    holds = pushed-Holds r.ring cap r.filled x r.holds room;
  }

  -- The ring behind as many puts as it has room for.
  fill :
      (l : List ℕ) (r : Ring cap)
      → r.ring.abort_request ≡ false
      → r.filled + length l ≤ cap
      → (s : Ring cap) × (s.ring.abort_request ≡ false) × (held s ≡ held r ++ l)
  unfolding held pushed_ring ring_queue_push
  fill [] r live room = (r, live, sym (append-nil (held r)))
  fill (x ∷ l) r live room =
      let less : r.filled < cap = omega (arith, room) in
      let (s, still, e) = fill l (pushed_ring r x less) live (omega (arith, room)) in
      (
        s,
        still,
        e
            ∙ (ap (λ t. t ++ l) (pushed r.ring cap r.filled x r.holds less)
                ∙ append_assoc (items r.ring cap r.filled) (x ∷ []) l),
      )

  module _ (some_room : 0 < cap) where
    vacant : Ring cap
    unfolding walk
    vacant = record {
      ring = record {
        queue = replicate cap 0;
        rindex = 0;
        windex = 0;
        size = pos 0;
        max_size = pos cap;
        abort_request = false;
      };
      filled = 0;
      holds = record {
        max_size = refl;
        size = refl;
        room = omega (arith, length-replicate {A = ℕ} cap 0);
        rindex = some_room;
        windex = refl;
        filled = omega arith;
      };
    }

    vacant-start : (vacant.ring.abort_request ≡ false) × (vacant.filled ≡ 0) × (held vacant ≡ [])
    unfolding vacant held contents
    vacant-start = (refl, refl, refl)

    stopped : Ring cap
    stopped = record {
      ring = ring_queue_signal vacant.ring;
      filled = vacant.filled;
      holds = signal-Holds vacant.ring cap vacant.filled vacant.holds;
    }

    holding :
        (l : List ℕ)
        → length l ≤ cap
        → (s : Ring cap) × (s.ring.abort_request ≡ false) × (held s ≡ held vacant ++ l)
    holding l h = fill l vacant vacant-start.0 (omega (arith, h, vacant-start.1))

    shown : Option (Bounded cap) → Ring cap
    shown none = stopped
    shown (some (l, h)) = (holding l h).0

    view-shown : (o : Option (Bounded cap)) → view (shown o) ≡ o
    unfolding view shown stopped ring_queue_signal
    view-shown none = refl
    view-shown (some (l, h)) =
        let (s, live, e) = holding l h in
        seen-some cap s.ring.abort_request l (held s) h (held-bound s) live
          (e ∙ ap (λ t. t ++ l) vacant-start.2)

  Quot-Iso-Bounded : 0 < cap → Iso (Quot (Alike cap)) (Option (Bounded cap))
  unfolding view
  Quot-Iso-Bounded some_room = record {
    fun = Quot.lift (seen-set cap) view Alike-view;
    inv = λ o. Quot.mk (shown some_room o);
    rinv = view-shown some_room;
    linv =
        Quot.ind (λ q. Quot-set _ _)
          λ r. Quot.sound (view-Alike (shown some_room (view r)) r (view-shown some_room (view r)));
  }

  -- Rings of a capacity, of which no two are told apart that answer every sequence of calls alike, are
  -- the lists that are no longer than it, and one more value: a ring that is not aborted is the list of
  -- what it holds, and every aborted one is the other value.
  pub Ring-Bounded :
      0 < cap
      → (same : Quot (Alike cap) ≡ Option (Bounded cap)) × ((r : Ring cap)
          → transport same (Quot.mk r) ≡ view r)
  unfolding Quot-Iso-Bounded
  Ring-Bounded some_room =
      let e = iso_to_equiv (Quot-Iso-Bounded some_room) in (ua e, λ r. ua-β e (Quot.mk r))
