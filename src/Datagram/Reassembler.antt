-- ===== src/Datagram/Reassembler.antt =====
-- lib/plexus-datagram/include/plexus/datagram/detail/reassembler.h: the fragments of messages, held
-- until a message is complete. What its sinks and timers are called with are effects, in their
-- order; `sizeof(std::vector<std::byte>)` is a parameter. Of an entry's timer the state has the
-- message that its pending wait is for. A counter of `std::size_t` wraps.
pub mod Entries
pub mod Parts
pub mod Stored
pub mod Complete
pub mod Charges
pub mod Bounds
pub mod Steps
pub mod Runs
use plexus.Common.{
  ℕ, ◌+◌, ◌-◌, ◌*◌, ◌/◌, ◌%◌, ◌^◌, Bool, true, false, ◌||◌, ltb, leb, ◌==◌, if◌then◌else◌,
}
use plexus.Common.{
  Option, none, some, List, [], ◌∷◌, ◌++◌, map, length, get_or, set, replicate, concat,
}
use plexus.Io.PriorityBandQueue.{DropCause}
use plexus.Datagram.Fragmentation.{
  global_default_max_message_bytes, reassembly_memory_budget, max_fragment_count,
}
use plexus.Datagram.ReassemblerFlatMap.{
  ReassemblerFlatMap, size, find, emplace, erase, cap_implied_max_partials,
}

pub record Config : Type 0 where
  pub max_message_size : ℕ
  pub total_memory_cap : ℕ
  pub per_message_timeout : ℕ

-- `config cfg = {}`.
abbrev pub default_config : Config
default_config = record {
  max_message_size = global_default_max_message_bytes;
  total_memory_cap = reassembly_memory_budget;
  per_message_timeout = 5000;
}

pub data Outcome : Type 0 where
  admitted completed dropped_malformed dropped_cap : Outcome

pub data Effect : Type 0 where
  delivered : List ℕ → Effect
  dropped : DropCause → Effect
  armed : ℕ → ℕ → Effect

pub record Entry : Type 0 where
  pub slots : List (List ℕ)
  pub present : List Bool
  pub received : ℕ
  pub size : ℕ
  pub overhead : ℕ
  pub timer : Option ℕ

pub record Reassembler : Type 0 where
  pub cfg : Config
  pub table : ReassemblerFlatMap Entry
  pub held : ℕ
  pub dead : Bool

abbrev pub no_entry : Entry
no_entry = record { slots = []; present = []; received = 0; size = 0; overhead = 0; timer = none }

-- Sums and differences of `std::size_t`.
unfoldable pub plus64 : ℕ → ℕ → ℕ
plus64 a b = (a + b) % 2 ^ 64

unfoldable pub minus64 : ℕ → ℕ → ℕ
minus64 a b = (a + 2 ^ 64 - b) % 2 ^ 64

-- A 32-bit count of vectors: it does not wrap.
unfoldable pub structural_cost : ℕ → ℕ → ℕ
structural_cost vector_size frag_cnt = frag_cnt * vector_size + (frag_cnt + 7) / 8

unfoldable pub reassembler : ℕ → Config → Reassembler
reassembler vector_size cfg = record {
  cfg = cfg;
  table = record {
    max_entries = cap_implied_max_partials cfg.total_memory_cap (structural_cost vector_size 1);
    entries = [];
  };
  held = 0;
  dead = false;
}

unfoldable pub in_flight : Reassembler → ℕ
in_flight m = size m.table

-- `it->second`, read and written.
abbrev pub entry_at : ℕ → Reassembler → Entry
entry_at at m = (get_or m.table.entries at (0, no_entry)).1

abbrev pub put_entry : ℕ → ℕ → Entry → Reassembler → Reassembler
put_entry at msg_id e m = record m {
  table = record m.table { entries = set m.table.entries at (msg_id, e) };
}

-- The body of `evict`, for what `find` gives.
unfoldable pub evict_at : Option ℕ → Reassembler → Reassembler
evict_at none m = m
evict_at (some at) m =
    let e = entry_at at m in
    record m { held = minus64 m.held (plus64 e.size e.overhead); table = erase at m.table }

unfoldable pub evict : ℕ → Reassembler → Reassembler
evict msg_id m = evict_at (find msg_id m.table) m

unfoldable pub assemble_and_evict : ℕ → Entry → Reassembler → Reassembler × List Effect
assemble_and_evict msg_id e m = (evict msg_id m, Effect.delivered (concat e.slots) ∷ [])

unfoldable pub arm_timeout : ℕ → Config → Entry → Entry × Effect
arm_timeout msg_id cfg e =
    (record e { timer = some msg_id }, Effect.armed msg_id cfg.per_message_timeout)

-- The entry as it is built, before it is moved into the table.
unfoldable pub new_entry : ℕ → ℕ → Entry
new_entry vector_size frag_cnt = record {
  slots = replicate frag_cnt [];
  present = replicate frag_cnt false;
  received = 0;
  size = 0;
  overhead = structural_cost vector_size frag_cnt;
  timer = none;
}

-- What is done with the place that `emplace` gives.
unfoldable pub opened :
    ℕ → Option (ReassemblerFlatMap Entry × ℕ) → Reassembler → Option (ℕ × Reassembler × List Effect)
opened msg_id none m = none
opened msg_id (some (table, at)) m =
    let m = record m { table = table } in
    let m = record m { held = plus64 m.held (entry_at at m).overhead } in
    let (e, effect) = arm_timeout msg_id m.cfg (entry_at at m) in
    some (at, put_entry at msg_id e m, effect ∷ [])

unfoldable pub open_entry : ℕ → ℕ → ℕ → ℕ → Reassembler → Option (ℕ × Reassembler × List Effect)
open_entry vector_size msg_id frag_cnt payload m =
    if ltb m.cfg.total_memory_cap
      (plus64 (plus64 m.held (structural_cost vector_size frag_cnt)) payload)
    then none
    else opened msg_id (emplace msg_id (new_entry vector_size frag_cnt) m.table) m

-- The slot that `store` fills.
unfoldable pub fill_slot : ℕ → List ℕ → Entry → Entry
fill_slot frag_idx bytes e = record e {
  slots = set e.slots frag_idx bytes;
  present = set e.present frag_idx true;
  size = plus64 e.size (length bytes);
  received = plus64 e.received 1;
}

-- What `store` does with the entry that it filled.
unfoldable pub filled : ℕ → ℕ → Entry → ℕ → Reassembler → Reassembler × Outcome × List Effect
filled at msg_id e added m =
    let m = put_entry at msg_id e (record m { held = plus64 m.held added }) in
    let (m', effects) = assemble_and_evict msg_id e m in
    if ltb e.received (length e.slots) then (m, admitted, []) else (m', completed, effects)

unfoldable pub store : ℕ → ℕ → ℕ → List ℕ → Reassembler → Reassembler × Outcome × List Effect
store at msg_id frag_idx bytes m =
    let e = entry_at at m in
    if leb (length e.slots) frag_idx
    then (m, dropped_malformed, [])
    else if get_or e.present frag_idx false
    then (m, admitted, [])
    else if ltb m.cfg.max_message_size (plus64 e.size (length bytes))
        || ltb m.cfg.total_memory_cap (plus64 m.held (length bytes))
    then (m, dropped_malformed, [])
    else filled at msg_id (fill_slot frag_idx bytes e) (length bytes) m

-- The rest of `admit_fragment`, for what `open_entry` gives.
unfoldable pub store_opened :
    Option (ℕ × Reassembler × List Effect)
    → ℕ
    → ℕ
    → List ℕ
    → Reassembler
    → Reassembler × Outcome × List Effect
store_opened none msg_id frag_idx bytes m = (m, dropped_cap, [])
store_opened (some (at, m', before)) msg_id frag_idx bytes m =
    let (m', outcome, effects) = store at msg_id frag_idx bytes m' in
    (m', outcome, before ++ effects)

-- `admit_fragment`, for what `find` gives.
unfoldable pub admit_at :
    Option ℕ → ℕ → ℕ → ℕ → ℕ → List ℕ → Reassembler → Reassembler × Outcome × List Effect
admit_at none vector_size msg_id frag_idx frag_cnt bytes m =
    store_opened (open_entry vector_size msg_id frag_cnt (length bytes) m) msg_id frag_idx bytes m
admit_at (some at) vector_size msg_id frag_idx frag_cnt bytes m = store at msg_id frag_idx bytes m

unfoldable pub admit_fragment :
    ℕ → ℕ → ℕ → ℕ → List ℕ → Reassembler → Reassembler × Outcome × List Effect
admit_fragment vector_size msg_id frag_idx frag_cnt bytes m =
    admit_at (find msg_id m.table) vector_size msg_id frag_idx frag_cnt bytes m

-- `emit_drop` behind an outcome.
unfoldable pub report : Outcome → List Effect
report admitted = []
report completed = []
report dropped_malformed = Effect.dropped DropCause.malformed ∷ []
report dropped_cap = Effect.dropped DropCause.reassembly_cap ∷ []

unfoldable pub feed : ℕ → ℕ → ℕ → ℕ → List ℕ → Reassembler → Reassembler × Outcome × List Effect
feed vector_size msg_id frag_idx frag_cnt bytes m =
    let (m', o, effects) =
      if (frag_cnt == 0) || (leb frag_cnt frag_idx || ltb max_fragment_count frag_cnt)
      then (m, dropped_malformed, [])
      else admit_fragment vector_size msg_id frag_idx frag_cnt bytes m in
    (m', o, effects ++ report o)

-- The handler of a wait that ends without an error.
unfoldable pub expired : ℕ → Reassembler → Reassembler × List Effect
expired msg_id m =
    if m.dead then (m, []) else (evict msg_id m, Effect.dropped DropCause.reassembly_evicted ∷ [])

-- The wait that is pending at an entry, if there is one, comes to its end.
unfoldable pub ended : Option ℕ → ℕ → Reassembler → Reassembler × List Effect
ended none at m = (m, [])
ended (some msg_id) at m =
    expired msg_id (put_entry at msg_id (record (entry_at at m) { timer = none }) m)

unfoldable pub fire : ℕ → Reassembler → Reassembler × List Effect
fire at m = ended (entry_at at m).timer at m

unfoldable pub cancel : Reassembler → Reassembler
cancel m = record m {
  dead = true;
  table = record m.table {
    entries =
        map {A = ℕ × Entry} {B = ℕ × Entry} (λ (key, e). (key, record e { timer = none }))
          m.table.entries;
  };
}
