-- ===== src/Datagram/Reassembler/Runs.antt =====
-- Runs of a reassembler: fragments of any shape, waits that end, and the tear-down.
use plexus.Common.{ℕ, ◌/◌, ◌^◌, ◌≤◌, ◌<◌, ◌≡◌, refl, ◌∙◌, arith}
use plexus.Common.{List, [], ◌∷◌, ◌++◌, length, All, All-append}
use plexus.Datagram.Reassembler.{Config, Reassembler, Effect, structural_cost}
use plexus.Datagram.Reassembler.{in_flight, reassembler, feed, fire, cancel}
use plexus.Datagram.Reassembler.Charges.{charge}
use plexus.Datagram.Reassembler.Bounds.{Sound, Kept, IsModest, state_of, stays}
use mathlib.Core.Path.{subst}
use plexus.Datagram.Reassembler.Steps.{Sound-count, cancel-Sound, feed-Kept, fire-Kept}

-- What a reassembler is called with, and which of its waits end.
pub data Event : Type 0 where
  fed : ℕ → ℕ → ℕ → List ℕ → Event
  fired : ℕ → Event
  cancelled : Event

abbrev pub step : ℕ → Event → Reassembler → Reassembler × List Effect
step vector_size (fed msg_id i cnt bytes) m = state_of (feed vector_size msg_id i cnt bytes m)
step vector_size (fired at) m = fire at m
step vector_size cancelled m = (cancel m, [])

abbrev pub run : ℕ → List Event → Reassembler → Reassembler × List Effect
run vector_size [] m = (m, [])
run vector_size (e ∷ es) m =
    let (m', now) = step vector_size e m in
    let (m'', later) = run vector_size es m' in (m'', now ++ later)

-- A fragment's bytes are fewer than memory has.
abbrev pub IsShort : Event → Type 0
IsShort (fed msg_id i cnt bytes) = length bytes < 2 ^ 62
IsShort (fired at) = Unit
IsShort cancelled = Unit

module _ (vector_size : ℕ) (fits_size : vector_size ≤ 2 ^ 16) where
  step-Kept :
      (e : Event) (m : Reassembler)
      → IsShort e
      → Sound vector_size m
      → Kept vector_size m (step vector_size e m)
  step-Kept (fed msg_id i cnt bytes) m short h =
      feed-Kept vector_size fits_size m h msg_id i cnt bytes short
  step-Kept (fired at) m short h = fire-Kept vector_size fits_size m h at
  step-Kept cancelled m short h = record {
    sound = cancel-Sound vector_size fits_size m h;
    same_cfg = unfold cancel in refl;
    modest = tt;
  }

  run-Kept :
      (es : List Event) (m : Reassembler)
      → All IsShort es
      → Sound vector_size m
      → Kept vector_size m (run vector_size es m)
  run-Kept [] m short h = stays vector_size m h
  run-Kept (e ∷ es) m (short, shorts) h =
      let s = step-Kept e m short h in
      let r = run-Kept es (step vector_size e m).0 shorts s.sound in
      record {
        sound = r.sound;
        same_cfg = r.same_cfg ∙ s.same_cfg;
        modest =
            All-append (IsModest m.cfg.max_message_size) (step vector_size e m).1
              (run vector_size es (step vector_size e m).0).1 s.modest
              (subst
                (λ c.
                  All (IsModest c.max_message_size) (run vector_size es (step vector_size e m).0).1)
                s.same_cfg r.modest);
      }

-- Over any run of fragments of any shape, expired waits and the tear-down, of a new reassembler whose
-- cap is below 2^63, with fragments shorter than 2^62 bytes: what is held stays within the cap, and is
-- the payload and the cost of the partial messages; these are at most as many as the cap has room for
-- at the least cost; and nothing longer than the message limit is delivered.
pub run-reassembler :
    (vector_size : ℕ) (cfg : Config) (es : List Event)
    → vector_size ≤ 2 ^ 16
    → cfg.total_memory_cap < 2 ^ 63
    → All IsShort es
    → let (m, effects) = run vector_size es (reassembler vector_size cfg) in
      (m.held ≤ cfg.total_memory_cap)
      × (m.held ≡ charge m.table.entries)
      × (in_flight m ≤ cfg.total_memory_cap / structural_cost vector_size 1)
      × All (IsModest cfg.max_message_size) effects
run-reassembler vector_size cfg es fits_size word short =
    let new : Sound vector_size (reassembler vector_size cfg) =
      unfold reassembler in
      record { accounted = refl; capped = omega arith; word = word; ceiling = refl; every = tt } in
    let k = run-Kept vector_size fits_size es (reassembler vector_size cfg) short new in
    let cfg_is : (run vector_size es (reassembler vector_size cfg)).0.cfg ≡ cfg =
      unfold reassembler in k.same_cfg in
    (
      subst (λ c. (run vector_size es (reassembler vector_size cfg)).0.held ≤ c.total_memory_cap)
          cfg_is k.sound.capped,
      k.sound.accounted,
      subst
          (λ c.
            in_flight (run vector_size es (reassembler vector_size cfg)).0
            ≤ c.total_memory_cap / structural_cost vector_size 1)
          cfg_is
          (Sound-count vector_size (run vector_size es (reassembler vector_size cfg)).0 k.sound),
      unfold reassembler in k.modest,
    )
