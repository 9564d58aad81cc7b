-- ===== src/Datagram/UdpHandshakeArq/Ladder.antt =====
-- A request is sent at most once for each delay of the ladder, and is resolved at most once.
use plexus.Common.{ℕ, suc, ◌+◌, ◌≤◌, ◌<◌, ◌≡◌, Bool, true, false}
use plexus.Common.{Option, some, ◌>>=◌, List, [], ◌∷◌, ◌++◌, length}
use plexus.Datagram.UdpHandshakeArq.{Effect, UdpHandshakeArq, start, on_paired_frame, cancel, fire}

pub data Event : Type 0 where
  fired paired cancelled : Event

abbrev pub step : Event → UdpHandshakeArq → Option (UdpHandshakeArq × List Effect)
step fired m = fire m
step paired m = some (on_paired_frame m)
step cancelled m = some (cancel m, [])

abbrev pub run : List Event → UdpHandshakeArq → Option (UdpHandshakeArq × List Effect)
run [] m = some (m, [])
run (e ∷ es) m = do (m', now) ← step e m; (m'', later) ← run es m'; some (m'', now ++ later)

-- How often the request is sent, and how often the caller hears of its end.
abbrev pub sends : List Effect → ℕ
sends [] = 0
sends (Effect.transmitted ∷ es) = suc (sends es)
sends (Effect.established ∷ es) = sends es
sends (Effect.timed_out ∷ es) = sends es
sends (Effect.armed delay ∷ es) = sends es

abbrev pub ends : List Effect → ℕ
ends [] = 0
ends (Effect.transmitted ∷ es) = ends es
ends (Effect.established ∷ es) = suc (ends es)
ends (Effect.timed_out ∷ es) = suc (ends es)
ends (Effect.armed delay ∷ es) = ends es

-- A resolved request waits for nothing, and a ladder is of a size that is counted.
pub record Sound (m : UdpHandshakeArq) : Type 0 where
  pub quiet : m.resolved ≡ true → m.pending ≡ false
  pub short : length m.ladder < 256
  pub within : m.attempt ≤ length m.ladder

-- What may still be heard.
abbrev pub left : Bool → ℕ
left true = 0
left false = 1

record Took (m : UdpHandshakeArq) (r : Option (UdpHandshakeArq × List Effect)) : Type 0 where
  m' : UdpHandshakeArq
  effects : List Effect
  is : r ≡ some (m', effects)
  sound : Sound m'
  same_ladder : m'.ladder ≡ m.ladder
  counted : m'.attempt ≡ m.attempt + sends effects
  heard : ends effects + left m'.resolved ≤ left m.resolved

-- What is done when a request is started and then anything happens.
abbrev pub run_started : List Event → UdpHandshakeArq → Option (UdpHandshakeArq × List Effect)
run_started es m = do (m', now) ← start m; (m'', later) ← run es m'; some (m'', now ++ later)
