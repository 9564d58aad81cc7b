-- ===== src/Datagram/UdpReliableArq/Events.antt =====
-- The sender's events, what each transmits, and when the handler of a wait may run late.
pub mod Kept
pub mod Timeouts
pub mod Changes
use plexus.Common.{
  ℕ, ◌+◌, ◌-◌, ◌%◌, ◌≤◌, ◌<◌, ◌≡◌, refl, sym, ap, ◌∙◌, arith, Bool, true, false, not, Option, none,
  some,
}
use plexus.Common.{Bool-cases, if_elim, inl, inr, ◌⊎◌, leb, if◌then◌else◌}
use plexus.Common.{length-map, get_or-map}
use plexus.Common.{List, [], ◌∷◌, ◌++◌, length, length-append, get_or, All, get_or-append_last}
use plexus.Datagram.UdpReliableArq.{
  Slot, UdpReliableArq, Effect, empty_slot, slot_at, put_slot, in_flight, transmit,
}
use plexus.Datagram.UdpReliableArq.{
  arm, fill_slot, submit, slide_to, admission, on_ack, give_up, on_rto, expired, ended, fire,
  cancel,
}
use plexus.Datagram.UdpReliableArq.Window.{
  Segment, no_segment, Serves, Sending, place_number, slot_at-put_slot, slot_at-Serves,
  put_slot-Sending, more-Sending,
}
use plexus.Datagram.UdpReliableArq.Steps.{on_ack-Acked}
use plexus.Datagram.UdpReliableArq.Slide.{in_flight-Sending}
use plexus.Wire.UdpAck.{UdpAck}
use mathlib.Core.Path.{subst}
use native.Mathlib.Nat.{mod-lt, mod-add-mod, add-mod-mod, mod-mod, add-mod_right}

-- What the sender is called with, and the clock's reading where it reads it; `fired n` is that the
-- wait ends which is pending at slot `n`, counted around; `late seq` is that the handler runs of a
-- wait for `seq` that was cancelled or replaced when it had ended and its handler was queued.
pub data Event : Type 0 where
  submitted : ℕ → Bool → List ℕ → Event
  acked : ℕ → UdpAck → Event
  fired : ℕ → Event
  late : ℕ → Event
  cancelled : Event

abbrev pub step : Event → UdpReliableArq → UdpReliableArq × List Effect
step (submitted now fragmented payload) m =
    let (m', result, effects) = submit now fragmented payload m in (m', effects)
step (acked now ack) m = on_ack now ack m
step (fired n) m = fire (n % m.window) m
step (late seq) m = expired seq m
step cancelled m = (cancel m, [])

-- What is submitted with one event more; a submission that is refused is none.
abbrev pub submissions : Event → UdpReliableArq → List Segment → List Segment
submissions (submitted now fragmented payload) m sent =
    if leb m.window (in_flight m) then sent else sent ++ ((fragmented, payload) ∷ [])
submissions (acked now ack) m sent = sent
submissions (fired n) m sent = sent
submissions (late seq) m sent = sent
submissions cancelled m sent = sent

-- A late handler runs on a sender that is torn down, or on a slot that is still free, and not on one
-- that a later segment took.
abbrev pub IsPrompt : Event → UdpReliableArq → Type 0
IsPrompt (submitted now fragmented payload) m = Unit
IsPrompt (acked now ack) m = Unit
IsPrompt (fired n) m = Unit
IsPrompt (late seq) m = (m.dead ≡ true) ⊎ ((slot_at m seq).outstanding ≡ false)
IsPrompt cancelled m = Unit

-- Such a handler does nothing.
pub expired_lem : (seq : ℕ) (m : UdpReliableArq) → IsPrompt (late seq) m → expired seq m ≡ (m, [])
unfolding expired on_rto
expired_lem seq m (inl dead) = rw dead refl
expired_lem seq m (inr free) =
    if_elim (λ t. t ≡ (m, [])) m.dead (m, []) _ (λ e. refl) (λ e. rw free refl)

-- A transmission is of a segment that was submitted, under that segment's number.
abbrev pub IsOf : List Segment → Effect → Type 0
IsOf sent (Effect.transmitted seq fragmented bytes) =
    (k : ℕ) × (k < length sent)
    × (seq ≡ k % 65536)
    × (get_or sent k no_segment ≡ (fragmented, bytes))
IsOf sent (Effect.armed seq delay) = Unit
IsOf sent (Effect.ack_sent ack) = Unit
IsOf sent Effect.exhausted = Unit
IsOf sent Effect.window_advanced = Unit

-- The same, of a segment from number `b` on.
abbrev pub IsFrom : ℕ → List Segment → Effect → Type 0
IsFrom b sent (Effect.transmitted seq fragmented bytes) =
    (k : ℕ) × (b ≤ k)
    × (k < length sent)
    × (seq ≡ k % 65536)
    × (get_or sent k no_segment ≡ (fragmented, bytes))
IsFrom b sent (Effect.armed seq delay) = Unit
IsFrom b sent (Effect.ack_sent ack) = Unit
IsFrom b sent Effect.exhausted = Unit
IsFrom b sent Effect.window_advanced = Unit

IsFrom-IsOf : (b : ℕ) (sent : List Segment) (e : Effect) → IsFrom b sent e → IsOf sent e
IsFrom-IsOf b sent (Effect.transmitted seq fragmented bytes) (k, from, below, is, content) =
    (k, below, is, content)
IsFrom-IsOf b sent (Effect.armed seq delay) i = tt
IsFrom-IsOf b sent (Effect.ack_sent ack) i = tt
IsFrom-IsOf b sent Effect.exhausted i = tt
IsFrom-IsOf b sent Effect.window_advanced i = tt

pub each_IsFrom-IsOf :
    (b : ℕ) (sent : List Segment) (es : List Effect) → All (IsFrom b sent) es → All (IsOf sent) es
each_IsFrom-IsOf b sent [] i = tt
each_IsFrom-IsOf b sent (e ∷ es) (i, is) = (IsFrom-IsOf b sent e i, each_IsFrom-IsOf b sent es is)
