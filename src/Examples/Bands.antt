-- ===== src/Examples/Bands.antt =====
-- The egress bands at concrete inputs.
use plexus.Common.{ℕ, ◌≡◌, List, [], ◌∷◌}
use plexus.Io.PriorityBandQueue.{Band, drop_newest, new_band, push_with_verdict}
use plexus.Io.PriorityBandQueue.Fifo.{Holds, offer, new_band-Holds, push_with_verdict-offer}
use plexus.Io.PriorityBandQueue.Drain.{
  AllHold, no_bands, next_band, take_first, Drains, pop_highest-take_first,
}

abbrev band : Band ℕ
band = new_band

abbrev queue : List ℕ
queue = []

push_with_verdict-offer_example :
    Holds (push_with_verdict drop_newest 5 band).0 (offer drop_newest 5 queue).0
    × ((push_with_verdict drop_newest 5 band).1 ≡ (offer drop_newest 5 queue).1)
push_with_verdict-offer_example = push_with_verdict-offer drop_newest 5 band queue new_band-Holds

-- An empty band in front of one that holds a frame.
abbrev pushed : Band ℕ
pushed = (push_with_verdict drop_newest 5 band).0

abbrev bands : List (Band ℕ)
bands = band ∷ pushed ∷ []

abbrev queues : List (List ℕ)
queues = queue ∷ (offer drop_newest 5 queue).0 ∷ []

pushed-Holds : Holds pushed (offer drop_newest 5 queue).0
pushed-Holds = (push_with_verdict-offer drop_newest 5 band queue new_band-Holds).0

bands-AllHold : AllHold bands queues
bands-AllHold =
    next_band band queue (pushed ∷ []) ((offer drop_newest 5 queue).0 ∷ []) new_band-Holds
      (next_band pushed (offer drop_newest 5 queue).0 [] [] pushed-Holds no_bands)

pop_highest-take_first_example : Drains bands (take_first queues)
pop_highest-take_first_example = pop_highest-take_first bands queues bands-AllHold
