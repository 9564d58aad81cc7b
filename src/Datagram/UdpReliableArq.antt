-- ===== src/Datagram/UdpReliableArq.antt =====
-- lib/plexus-datagram/include/plexus/datagram/detail/udp_reliable_arq.h: selective repeat over numbered
-- datagrams. Its callbacks are the effects that an operation returns, in their order; the clock's
-- reading is an argument. Of a slot's timer the state has the wait that is pending: `expires_after`
-- with `async_wait` sets it, `cancel` and its end clear it. That a handler runs all the same, which was
-- queued then, is an event of its own: `late` of Events.
pub mod Window
pub mod Slide
pub mod Steps
pub mod Events
pub mod Runs
pub mod Retries
pub mod SendAck
pub mod Outstanding
pub mod Link
use plexus.Common.{
  ℕ, zero, suc, ◌+◌, ◌-◌, ◌%◌, min, Bool, true, false, not, ◌&&◌, ◌||◌, ltb, leb, ◌==◌,
  if◌then◌else◌,
}
use plexus.Common.{Option, none, some, ◌>>=◌, List, [], ◌∷◌, ◌++◌, map, get_or, set, replicate}
use plexus.Wire.UdpAck.{UdpAck, no_ack, bitmap_bits, hole_received, mark_hole}
use plexus.Datagram.UdpReorderBuffer.{
  UdpReorderBuffer, Delivery, udp_reorder_buffer, feed, cumulative, buffered_at,
}
use plexus.Datagram.UdpRtoEstimator.{UdpRtoEstimator, udp_rto_estimator, sample, backed_off}

pub record UdpArqConfig : Type 0 where
  pub window : ℕ
  pub initial_rto : ℕ
  pub min_rto : ℕ
  pub max_rto : ℕ
  pub max_retransmit : ℕ

pub data SubmitResult : Type 0 where
  admitted window_full : SubmitResult

pub record Slot : Type 0 where
  pub bytes : List ℕ
  pub timer : Option ℕ
  pub sent_at : ℕ
  pub retransmits : ℕ
  pub outstanding : Bool
  pub retransmitted : Bool
  pub fragmented : Bool

-- What the callbacks and the timers are called with.
pub data Effect : Type 0 where
  transmitted : ℕ → Bool → List ℕ → Effect
  armed : ℕ → ℕ → Effect
  ack_sent : UdpAck → Effect
  exhausted window_advanced : Effect

pub record UdpReliableArq : Type 0 where
  pub max_retransmit : ℕ
  pub window : ℕ
  pub slots : List Slot
  pub recv : UdpReorderBuffer
  pub next : ℕ
  pub base : ℕ
  pub rto : UdpRtoEstimator
  pub dead : Bool

abbrev pub empty_slot : Slot
empty_slot = record {
  bytes = [];
  timer = none;
  sent_at = 0;
  retransmits = 0;
  outstanding = false;
  retransmitted = false;
  fragmented = false;
}

unfoldable pub udp_reliable_arq : UdpArqConfig → ℕ → UdpReliableArq
udp_reliable_arq cfg initial_seq =
    let window = if cfg.window == 0 then 512 else min cfg.window 32768 in
    record {
      max_retransmit = cfg.max_retransmit;
      window = window;
      slots = replicate window empty_slot;
      recv = udp_reorder_buffer window initial_seq;
      next = initial_seq;
      base = initial_seq;
      rto = udp_rto_estimator cfg.initial_rto cfg.min_rto cfg.max_rto;
      dead = false;
    }

-- `m_slots[seq % m_window]`, read and written.
abbrev pub slot_at : UdpReliableArq → ℕ → Slot
slot_at m seq = get_or m.slots (seq % m.window) empty_slot

abbrev pub put_slot : ℕ → Slot → UdpReliableArq → UdpReliableArq
put_slot seq s m = record m { slots = set m.slots (seq % m.window) s }

unfoldable pub in_flight : UdpReliableArq → ℕ
in_flight m = (m.next + 65536 - m.base) % 65536

unfoldable pub window_has_room : UdpReliableArq → Bool
window_has_room m = ltb (in_flight m) m.window

abbrev pub transmit : ℕ → Slot → Effect
transmit seq s = Effect.transmitted seq s.fragmented s.bytes

unfoldable pub arm : ℕ → UdpReliableArq → UdpReliableArq × Effect
arm seq m =
    let s = slot_at m seq in
    (
      put_slot seq (record s { timer = some seq }) m,
      Effect.armed seq (backed_off s.retransmits m.rto),
    )

-- The slot as it is filled, before its timer is armed.
unfoldable pub fill_slot : ℕ → Bool → List ℕ → Slot → Slot
fill_slot now fragmented payload slot = record slot {
  bytes = payload;
  outstanding = true;
  retransmitted = false;
  retransmits = 0;
  fragmented = fragmented;
  sent_at = now;
}

-- The admission of a segment under the number `seq`.
unfoldable pub admission : ℕ → Bool → List ℕ → UdpReliableArq → ℕ → UdpReliableArq × List Effect
admission now fragmented payload m seq =
    let slot = fill_slot now fragmented payload (slot_at m seq) in
    let (m', effect) = arm seq (put_slot seq slot (record m { next = (m.next + 1) % 65536 })) in
    (m', transmit seq slot ∷ effect ∷ [])

unfoldable pub submit :
    ℕ → Bool → List ℕ → UdpReliableArq → UdpReliableArq × SubmitResult × List Effect
submit now fragmented payload m =
    let (m', effects) = admission now fragmented payload m m.next in
    if leb m.window (in_flight m)
    then (m, SubmitResult.window_full, [])
    else (m', SubmitResult.admitted, effects)

-- `sample_rtt` is true at every call.
unfoldable pub free_segment : ℕ → ℕ → UdpReliableArq → UdpReliableArq
free_segment now seq m =
    let s = slot_at m seq in
    let rto = if s.retransmitted then m.rto else sample (now - s.sent_at) m.rto in
    if not s.outstanding
    then m
    else put_slot seq (record s { timer = none; outstanding = false }) (record m { rto = rto })

-- The condition of the loop of `slide_to`.
unfoldable pub slides : ℕ → UdpReliableArq → Bool
slides new_base m =
    not ((new_base + 65536 - m.base) % 65536 == 0)
    && (ltb ((new_base + 65536 - m.base) % 65536) 32768 && not (m.base == m.next))

-- The loop. Its turns are at most those that are in flight: with none the condition is false.
unfoldable pub slide_loop : ℕ → ℕ → ℕ → UdpReliableArq → UdpReliableArq
slide_loop zero now new_base m = m
slide_loop (suc fuel) now new_base m =
    let freed = free_segment now m.base m in
    let rest = slide_loop fuel now new_base (record freed { base = (m.base + 1) % 65536 }) in
    if slides new_base m then rest else m

unfoldable pub slide_to : ℕ → ℕ → UdpReliableArq → UdpReliableArq × List Effect
slide_to now new_base m =
    let m' = slide_loop (in_flight m) now new_base m in
    (m', if m'.base == m.base then [] else Effect.window_advanced ∷ [])

unfoldable pub ack_hole : ℕ → ℕ → UdpReliableArq → UdpReliableArq
ack_hole now seq m =
    let rel = (seq + 65536 - m.base) % 65536 in
    if leb 32768 rel || leb m.window rel then m else free_segment now seq m

-- One turn of the loop over the bitmap.
unfoldable pub ack_place : ℕ → ℕ → UdpAck → UdpReliableArq → UdpReliableArq
ack_place i now ack m =
    if hole_received ack i then ack_hole now ((ack.cumulative + 2 + i) % 65536) m else m

-- The loop, from place `i` on.
unfoldable pub ack_holes : ℕ → ℕ → ℕ → UdpAck → UdpReliableArq → UdpReliableArq
ack_holes zero i now ack m = m
ack_holes (suc count) i now ack m = ack_holes count (i + 1) now ack (ack_place i now ack m)

unfoldable pub on_ack : ℕ → UdpAck → UdpReliableArq → UdpReliableArq × List Effect
on_ack now ack m =
    let (m, effects) = slide_to now ((ack.cumulative + 1) % 65536) m in
    (ack_holes bitmap_bits 0 now ack m, effects)

-- The acknowledgement that `send_ack` builds, from place `i` of its bitmap on.
unfoldable pub mark_buffered : ℕ → ℕ → UdpReorderBuffer → UdpAck → UdpAck
mark_buffered zero i recv ack = ack
mark_buffered (suc count) i recv ack =
    mark_buffered count (i + 1) recv (if buffered_at recv (i + 1) then mark_hole ack i else ack)

unfoldable pub send_ack : UdpReliableArq → Effect
send_ack m =
    Effect.ack_sent
      (mark_buffered bitmap_bits 0 m.recv (record no_ack { cumulative = cumulative m.recv }))

unfoldable pub on_segment :
    ℕ → Bool → List ℕ → UdpReliableArq → Option (UdpReliableArq × List Delivery × List Effect)
on_segment seq fragmented payload m = do
  (recv, outcome, deliveries) ← feed seq fragmented payload m.recv
  let m = record m { recv = recv } in some (m, deliveries, send_ack m ∷ [])

unfoldable pub give_up : UdpReliableArq → UdpReliableArq × List Effect
give_up m = if m.dead then (m, []) else (record m { dead = true }, Effect.exhausted ∷ [])

unfoldable pub on_rto : ℕ → UdpReliableArq → UdpReliableArq × List Effect
on_rto seq m =
    let s = slot_at m seq in
    let s' = record s { retransmits = s.retransmits + 1; retransmitted = true } in
    let (m', effect) = arm seq (put_slot seq s' m) in
    if not s.outstanding
    then (m, [])
    else if leb m.max_retransmit s.retransmits
    then give_up m
    else (m', transmit seq s' ∷ effect ∷ [])

-- The handler of a wait that ends without an error.
unfoldable pub expired : ℕ → UdpReliableArq → UdpReliableArq × List Effect
expired seq m = if m.dead then (m, []) else on_rto seq m

-- The wait that is pending at a slot, if there is one, comes to its end.
unfoldable pub ended : Option ℕ → ℕ → UdpReliableArq → UdpReliableArq × List Effect
ended none index m = (m, [])
ended (some seq) index m =
    let idle = record (get_or m.slots index empty_slot) { timer = none } in
    expired seq (record m { slots = set m.slots index idle })

unfoldable pub fire : ℕ → UdpReliableArq → UdpReliableArq × List Effect
fire index m = ended (get_or m.slots index empty_slot).timer index m

unfoldable pub cancel : UdpReliableArq → UdpReliableArq
cancel m = record m {
  dead = true;
  slots = map {A = Slot} {B = Slot} (λ s. record s { timer = none }) m.slots;
}
