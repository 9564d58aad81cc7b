-- ===== src/Io/PriorityBandQueue.antt =====
-- lib/plexus-core/include/plexus/io/detail/priority_band_queue.h: the egress bands of one
-- destination. A frame owner is of any type; an empty slot, `wire_bytes<>{}`, is `none`.
pub mod Fifo
pub mod Drain
use plexus.Common.{
  ℕ, zero, suc, ◌+◌, ◌-◌, ◌%◌, ◌^◌, min, Bool, true, false, not, ◌||◌, ◌==◌, if◌then◌else◌,
}
use plexus.Common.{Option, none, some, List, [], ◌∷◌, ◌++◌, length, take, get_or, set, replicate}

abbrev pub k_band_depth : ℕ
k_band_depth = 256

abbrev pub k_egress_bands : ℕ
k_egress_bands = 4

-- A priority is its number, from `background`, 0, to `realtime`, 3; the subtraction is that of
-- `std::size_t`.
unfoldable pub band_of : ℕ → ℕ
band_of p = min ((k_egress_bands - 1 + 2 ^ 64 - p) % 2 ^ 64) (k_egress_bands - 1)

pub data Congestion : Type 0 where
  block drop_oldest drop_newest : Congestion

-- `drop_cause`, of which an admission answers the first four.
pub data DropCause : Type 0 where
  no_drop dropped_oldest dropped_newest blocked : DropCause
  replay too_old tamper reassembly_evicted reassembly_cap malformed : DropCause
  demux_refused arq_shed unroutable closed_unsent : DropCause

pub record Band {ℓ} (A : Type ℓ) : Type ℓ where
  pub slots : List (Option A)
  pub head : ℕ
  pub count : ℕ
  pub oldest_drops : ℕ
  pub newest_drops : ℕ
  pub blocks : ℕ

module _ {ℓ} {A : Type ℓ} where
  unfoldable pub new_band : Band A
  new_band = record {
    slots = [];
    head = 0;
    count = 0;
    oldest_drops = 0;
    newest_drops = 0;
    blocks = 0;
  }

  unfoldable pub is_empty : Band A → Bool
  is_empty b = b.count == 0

  unfoldable pub front : Band A → Option A
  front b = get_or b.slots b.head none

  unfoldable pub pop : Band A → Band A
  pop b = record b {
    slots = set b.slots b.head none;
    head = (b.head + 1) % k_band_depth;
    count = b.count - 1;
  }

  -- `m_slots.resize(k_band_depth)` where the size is another.
  unfoldable pub grown : List (Option A) → List (Option A)
  grown slots =
      if length slots == k_band_depth
      then slots
      else take k_band_depth slots ++ replicate (k_band_depth - length slots) none

  -- The admission into the tail.
  unfoldable pub admit_tail : A → Band A → Band A
  admit_tail frame b =
      let tail = (b.head + b.count) % k_band_depth in
      record b { slots = set (grown b.slots) tail (some frame); count = b.count + 1 }

  -- The eviction of the oldest frame, counted.
  unfoldable pub evicted : Band A → Band A
  evicted b = let p = pop b in record p { oldest_drops = p.oldest_drops + 1 }

  unfoldable pub push_with_verdict : Congestion → A → Band A → Band A × DropCause
  push_with_verdict block frame b =
      if b.count == k_band_depth
      then (record b { blocks = b.blocks + 1 }, blocked)
      else (admit_tail frame b, no_drop)
  push_with_verdict drop_newest frame b =
      if b.count == k_band_depth
      then (record b { newest_drops = b.newest_drops + 1 }, dropped_newest)
      else (admit_tail frame b, no_drop)
  push_with_verdict drop_oldest frame b =
      if b.count == k_band_depth
      then (admit_tail frame (evicted b), dropped_oldest)
      else (admit_tail frame b, no_drop)

  unfoldable pub push : Congestion → A → Band A → Band A × Bool
  push congestion frame b =
      let (b', cause) = push_with_verdict congestion frame b in
      (b', elim cause [ dropped_newest ↦ false | blocked ↦ false | _ ↦ true ])

  -- The bands of a destination, the one to drain first in front.
  unfoldable pub has_work : List (Band A) → Bool
  has_work [] = false
  has_work (b ∷ bs) = if not (is_empty b) then true else has_work bs

  unfoldable pub front_highest : List (Band A) → Option A
  front_highest [] = none
  front_highest (b ∷ bs) = if not (is_empty b) then front b else front_highest bs

  unfoldable pub pop_highest : List (Band A) → List (Band A)
  pop_highest [] = []
  pop_highest (b ∷ bs) = if not (is_empty b) then pop b ∷ bs else b ∷ pop_highest bs

  -- `none` is an index past the array.
  unfoldable pub enqueue_with_verdict :
      ℕ → Congestion → A → List (Band A) → Option (List (Band A) × DropCause)
  enqueue_with_verdict band congestion frame [] = none
  enqueue_with_verdict zero congestion frame (b ∷ bs) =
      let (b', cause) = push_with_verdict congestion frame b in some (b' ∷ bs, cause)
  enqueue_with_verdict (suc band) congestion frame (b ∷ bs) =
      elim (enqueue_with_verdict band congestion frame bs) [
        | none ↦ none
        | some (bs', cause) ↦ some (b ∷ bs', cause)
      ]

  unfoldable pub enqueue : ℕ → Congestion → A → List (Band A) → Option (List (Band A) × Bool)
  enqueue band congestion frame [] = none
  enqueue zero congestion frame (b ∷ bs) =
      let (b', admitted) = push congestion frame b in some (b' ∷ bs, admitted)
  enqueue (suc band) congestion frame (b ∷ bs) = elim (enqueue band congestion frame bs) [
    | none ↦ none
    | some (bs', admitted) ↦ some (b ∷ bs', admitted)
  ]

  unfoldable pub dropped_oldest_count : List (Band A) → ℕ → ℕ
  dropped_oldest_count bands band = (get_or bands band new_band).oldest_drops

  unfoldable pub dropped_newest_count : List (Band A) → ℕ → ℕ
  dropped_newest_count bands band = (get_or bands band new_band).newest_drops

  unfoldable pub blocked_count : List (Band A) → ℕ → ℕ
  blocked_count bands band = (get_or bands band new_band).blocks
