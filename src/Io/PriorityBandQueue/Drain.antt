-- ===== src/Io/PriorityBandQueue/Drain.antt =====
-- The bands of a destination against their queues, over runs of admissions and drains.
use plexus.Common.{◌≡◌, refl, true, false}
use plexus.Common.{Option, none, some, List, [], ◌∷◌}
use plexus.Io.PriorityBandQueue.{Band, pop}
use plexus.Io.PriorityBandQueue.{has_work, front_highest, pop_highest}
use plexus.Io.PriorityBandQueue.Fifo.{Holds, front_lem, is_empty-cons, is_empty-nil, pop-Holds}

module _ {ℓ} {A : Type ℓ} where
  -- Each band holds its queue.
  pub data AllHold : List (Band A) → List (List A) → Type ℓ where
    no_bands : AllHold [] []
    next_band :
        (b : Band A) (q : List A) (bs : List (Band A)) (qs : List (List A))
        → Holds b q
        → AllHold bs qs
        → AllHold (b ∷ bs) (q ∷ qs)

  -- The first frame of the first queue that has one, and the queues without it.
  unfoldable pub take_first : List (List A) → Option (A × List (List A))
  take_first [] = none
  take_first ([] ∷ qs) = elim (take_first qs) [ none ↦ none | some (x, qs') ↦ some (x, [] ∷ qs') ]
  take_first ((x ∷ q) ∷ qs) = some (x, q ∷ qs)

  -- What a drain turn answers: the frame in front, or nothing where there is no work.
  pub data Drains (bs : List (Band A)) : Option (A × List (List A)) → Type ℓ where
    idle : has_work bs ≡ false → front_highest bs ≡ none → Drains bs none
    drains :
        (x : A) (qs : List (List A))
        → has_work bs ≡ true
        → front_highest bs ≡ some x
        → AllHold (pop_highest bs) qs
        → Drains bs (some (x, qs))

  abbrev behind_empty : Option (A × List (List A)) → Option (A × List (List A))
  behind_empty none = none
  behind_empty (some (x, qs)) = some (x, [] ∷ qs)

  -- A band without work in front changes nothing.
  behind :
      (b : Band A) (bs : List (Band A)) (o : Option (A × List (List A)))
      → Holds b []
      → Drains bs o
      → Drains (b ∷ bs) (behind_empty o)
  unfolding has_work front_highest pop_highest
  behind b bs none h (idle w f) = let e = is_empty-nil b h in idle (rw e w) (rw e f)
  behind b bs (some (x, qs)) h (drains _ _ w f a) =
      let e = is_empty-nil b h in
      drains x ([] ∷ qs) (rw e w) (rw e f) (rw e (next_band b [] (pop_highest bs) qs h a))

  -- Where the bands hold their queues, a drain turn hands on the first frame of the first queue
  -- that is not empty and takes it off, and reports no work exactly where all are empty.
  pub pop_highest-take_first :
      (bs : List (Band A)) (qs : List (List A)) → AllHold bs qs → Drains bs (take_first qs)
  unfolding take_first has_work front_highest pop_highest
  pop_highest-take_first [] [] no_bands = idle refl refl
  pop_highest-take_first (b ∷ bs) ((x ∷ q) ∷ qs) (next_band _ _ _ _ h hs) =
      let some_work = is_empty-cons b x q h in
      drains x (q ∷ qs) (rw some_work refl) (rw some_work (front_lem b x q h))
        (rw some_work (next_band (pop b) q bs qs (pop-Holds b x q h) hs))
  pop_highest-take_first (b ∷ bs) ([] ∷ qs) (next_band _ _ _ _ h hs) =
      behind b bs (take_first qs) h (pop_highest-take_first bs qs hs)
  pop_highest-take_first [] (_ ∷ qs) h = elim h [ ]
  pop_highest-take_first (b ∷ bs) [] h = elim h [ ]
