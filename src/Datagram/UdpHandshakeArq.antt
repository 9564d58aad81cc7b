-- ===== src/Datagram/UdpHandshakeArq.antt =====
-- lib/plexus-datagram/include/plexus/datagram/detail/udp_handshake_arq.h: the handshake's request is
-- sent again on a ladder of delays until a frame pairs with it. What the callbacks and the timer are
-- called with are effects, in their order; of the timer the state has whether its wait is pending.
pub mod Ladder
use plexus.Common.{ℕ, ◌+◌, ◌-◌, ◌%◌, ◌^◌, Bool, true, false, ◌&&◌, leb, ltb, if◌then◌else◌}
use plexus.Common.{Option, none, some, ◌>>=◌, List, [], ◌∷◌, ◌++◌, length, get_or}

-- What the callbacks and the timer are called with.
pub data Effect : Type 0 where
  transmitted established timed_out : Effect
  armed : ℕ → Effect

pub record UdpHandshakeArq : Type 0 where
  pub ladder : List ℕ
  pub attempt : ℕ
  pub resolved : Bool
  pub pending : Bool

abbrev pub default_ladder : List ℕ
default_ladder = 250 ∷ 500 ∷ 1000 ∷ []

abbrev pub max_attempts : ℕ
max_attempts = 3

unfoldable pub udp_handshake_arq : List ℕ → UdpHandshakeArq
udp_handshake_arq ladder = record {
  ladder = ladder;
  attempt = 0;
  resolved = false;
  pending = false;
}

unfoldable pub transmit : UdpHandshakeArq → UdpHandshakeArq × List Effect
transmit m = (record m { attempt = (m.attempt + 1) % 2 ^ 8 }, Effect.transmitted ∷ [])

-- None is that the source reads the ladder out of its bounds.
unfoldable pub arm : UdpHandshakeArq → Option (UdpHandshakeArq × List Effect)
arm m =
    if leb 1 m.attempt && ltb (m.attempt - 1) (length m.ladder)
    then some (record m { pending = true }, Effect.armed (get_or m.ladder (m.attempt - 1) 0) ∷ [])
    else none

-- `transmit(); arm();`.
unfoldable pub transmit_and_arm : UdpHandshakeArq → Option (UdpHandshakeArq × List Effect)
transmit_and_arm m = do (m', waits) ← arm (transmit m).0; some (m', (transmit m).1 ++ waits)

unfoldable pub start : UdpHandshakeArq → Option (UdpHandshakeArq × List Effect)
start m = let begun = transmit_and_arm m in if m.resolved then some (m, []) else begun

unfoldable pub on_paired_frame : UdpHandshakeArq → UdpHandshakeArq × List Effect
on_paired_frame m =
    if m.resolved
    then (m, [])
    else (record m { resolved = true; pending = false }, Effect.established ∷ [])

unfoldable pub cancel : UdpHandshakeArq → UdpHandshakeArq
cancel m = record m { resolved = true; pending = false }

unfoldable pub surrender : UdpHandshakeArq → UdpHandshakeArq × List Effect
surrender m = if m.resolved then (m, []) else (record m { resolved = true }, Effect.timed_out ∷ [])

-- The handler of a wait that ends without an error.
unfoldable pub expired : UdpHandshakeArq → Option (UdpHandshakeArq × List Effect)
expired m =
    let again = transmit_and_arm m in
    if leb (length m.ladder) m.attempt then some (surrender m) else again

-- The wait, if it is pending, comes to its end.
unfoldable pub fire : UdpHandshakeArq → Option (UdpHandshakeArq × List Effect)
fire m =
    let ended = expired (record m { pending = false }) in if m.pending then ended else some (m, [])
