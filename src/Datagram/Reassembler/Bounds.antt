-- ===== src/Datagram/Reassembler/Bounds.antt =====
-- Every operation keeps what is held within the cap, and counted exactly.
use plexus.Common.{ℕ, ◌+◌, ◌^◌, ◌≤◌, ◌<◌, ◌≡◌, refl, sym, ap, ◌∙◌, arith, true, false}
use plexus.Common.{
  if_elim, ltb, Option, none, some, List, [], length, get_or, set, remove_at, All, length-set,
  get_or-set_self, get_or-set_ne,
}
use plexus.Datagram.ReassemblerFlatMap.{find, erase, cap_implied_max_partials}
use plexus.Datagram.Reassembler.{
  Reassembler, Entry, Outcome, Effect, plus64, minus64, entry_at, put_entry, structural_cost,
  fill_slot, filled, evict, evict_at, assemble_and_evict,
}
use plexus.Datagram.Reassembler.Entries.{plus64-exact, minus64-exact}
use plexus.Datagram.Reassembler.Parts.{total, count-set, total-set}
use plexus.Datagram.Reassembler.Charges.{
  IsOpen, charge, none_at, charge-set, charge-remove_at, get_or-charge, All-set, All-remove_at,
  All-get_or, remove_at-set, found_place,
}
use native.Mathlib.Decide.{ℕ_discrete}

-- What is held is what the entries hold and cost, within the cap, and each entry is an open one.
pub record Sound (vector_size : ℕ) (m : Reassembler) : Type 0 where
  pub accounted : m.held ≡ charge m.table.entries
  pub capped : m.held ≤ m.cfg.total_memory_cap
  pub word : m.cfg.total_memory_cap < 2 ^ 63
  pub ceiling :
      m.table.max_entries
      ≡ cap_implied_max_partials m.cfg.total_memory_cap (structural_cost vector_size 1)
  pub every : All (λ (x : ℕ × Entry). IsOpen vector_size m.cfg.max_message_size x.1) m.table.entries

-- What is delivered is no longer than a message may be.
abbrev pub IsModest : ℕ → Effect → Type 0
IsModest max_message_size (Effect.delivered bytes) = length bytes ≤ max_message_size
IsModest max_message_size (Effect.dropped cause) = Unit
IsModest max_message_size (Effect.armed msg_id delay) = Unit

pub record Kept (vector_size : ℕ) (m : Reassembler) (r : Reassembler × List Effect) : Type 0 where
  pub sound : Sound vector_size r.0
  pub same_cfg : r.0.cfg ≡ m.cfg
  pub modest : All (IsModest m.cfg.max_message_size) r.1

-- A reassembler with one entry taken away.
unfoldable pub without : ℕ → Reassembler → Reassembler
without at m = record m {
  held = minus64 m.held (plus64 (entry_at at m).size (entry_at at m).overhead);
  table = erase at m.table;
}

-- The entries but one, where those are open.
without-Sound :
    (vector_size at : ℕ) (m : Reassembler)
    → at < length m.table.entries
    → m.held ≡ charge m.table.entries
    → m.held ≤ m.cfg.total_memory_cap
    → m.cfg.total_memory_cap < 2 ^ 63
    → m.table.max_entries
      ≡ cap_implied_max_partials m.cfg.total_memory_cap (structural_cost vector_size 1)
    → All
        (λ (x : ℕ × Entry). IsOpen vector_size m.cfg.max_message_size x.1)
        (remove_at at m.table.entries)
    → Sound vector_size (without at m)
unfolding without erase
without-Sound vector_size at m l accounted capped word ceiling others =
    let e = entry_at at m in
    let part = get_or-charge at m.table.entries in
    let removed = charge-remove_at at m.table.entries l in
    let s = plus64-exact e.size e.overhead (omega (arith, part, accounted, capped, word)) in
    let rest = charge (remove_at at m.table.entries) in
    let back : minus64 m.held (plus64 e.size e.overhead) ≡ rest =
      let e1 : m.held ≡ rest + (e.size + e.overhead) = omega (arith, removed, accounted) in
      rw (s, e1)
        (minus64-exact rest (e.size + e.overhead)
          (omega (arith, removed, accounted, capped, word))) in
    record {
      accounted = back;
      capped = rw back (omega (arith, removed, accounted, capped));
      word = word;
      ceiling = ceiling;
      every = others;
    }

module _ (vector_size : ℕ) (m : Reassembler) (h : Sound vector_size m) where
  pub stays : Kept vector_size m (m, [])
  stays = record { sound = h; same_cfg = refl; modest = tt }

  evict_at-Sound :
      (found : Option ℕ)
      → ((at : ℕ) → found ≡ some at → at < length m.table.entries)
      → Sound vector_size (evict_at found m)
  unfolding evict_at without
  evict_at-Sound none inside = h
  evict_at-Sound (some at) inside =
      without-Sound vector_size at m (inside at refl) h.accounted h.capped h.word h.ceiling
        (All-remove_at _ at m.table.entries h.every)

  pub evict-Sound : (msg_id : ℕ) → Sound vector_size (evict msg_id m)
  unfolding evict
  evict-Sound msg_id =
      evict_at-Sound (find msg_id m.table) (λ at f. (found_place msg_id m.table at f).0)

evict_at-cfg : (found : Option ℕ) (m : Reassembler) → (evict_at found m).cfg ≡ m.cfg
unfolding evict_at
evict_at-cfg none m = refl
evict_at-cfg (some at) m = refl

pub evict-cfg : (msg_id : ℕ) (m : Reassembler) → (evict msg_id m).cfg ≡ m.cfg
unfolding evict
evict-cfg msg_id m = evict_at-cfg (find msg_id m.table) m

abbrev pub state_of : Reassembler × Outcome × List Effect → Reassembler × List Effect
state_of (m, o, effects) = (m, effects)

-- A fragment is stored in an open entry.
module _ (vector_size msg_id at : ℕ) (m : Reassembler) (h : Sound vector_size m)
    (found : find msg_id m.table ≡ some at) (i : ℕ) (bytes : List ℕ)
    (short : length bytes < 2 ^ 62) where
  abbrev old : Entry
  old = entry_at at m

  abbrev next : Entry
  next = fill_slot i bytes old

  inside : at < length m.table.entries
  inside = (found_place msg_id m.table at found).0

  old-IsOpen : IsOpen vector_size m.cfg.max_message_size old
  old-IsOpen =
      All-get_or (λ (x : ℕ × Entry). IsOpen vector_size m.cfg.max_message_size x.1) at none_at
        m.table.entries inside h.every

  module _ (l : i < length old.slots) (new : get_or old.present i false ≡ false)
      (fits : plus64 old.size (length bytes) ≤ m.cfg.max_message_size)
      (held_fits : plus64 m.held (length bytes) ≤ m.cfg.total_memory_cap) where
    abbrev grown : Reassembler
    grown = put_entry at msg_id next (record m { held = plus64 m.held (length bytes) })

    held_sum : plus64 m.held (length bytes) ≡ m.held + length bytes
    held_sum = plus64-exact m.held (length bytes) (omega (arith, h.capped, h.word, short))

    size_sum : plus64 old.size (length bytes) ≡ old.size + length bytes
    size_sum =
        plus64-exact old.size (length bytes)
          (omega (arith, get_or-charge at m.table.entries, h.accounted, h.capped, h.word, short))

    received_sum : plus64 old.received 1 ≡ old.received + 1
    received_sum =
        plus64-exact old.received 1 (let o = old-IsOpen in omega (arith, o.unfinished, o.few))

    grown-charge : plus64 m.held (length bytes) ≡ charge grown.table.entries
    unfolding fill_slot
    grown-charge = omega (
      arith,
      held_sum,
      size_sum,
      h.accounted,
      charge-set at (msg_id, next) m.table.entries inside,
    )

    next_small : next.size ≤ m.cfg.max_message_size
    unfolding fill_slot
    next_small = fits

    next_size : next.size ≡ total next.slots
    unfolding fill_slot
    next_size =
        let o = old-IsOpen in
        omega (arith, size_sum, o.sized, total-set old.slots i bytes l (o.empty i new))

    next-IsOpen : next.received < length next.slots → IsOpen vector_size m.cfg.max_message_size next
    unfolding fill_slot
    next-IsOpen unfinished =
        let o = old-IsOpen in
        let same : length (set old.slots i bytes) ≡ length old.slots =
          length-set old.slots i bytes in
        record {
          marks = length-set old.present i true ∙ o.marks ∙ sym same;
          empty = λ j gone. elim (ℕ_discrete i j) [
            | yes q ↦
                let here = get_or-set_self old.present i true false (omega (arith, l, o.marks)) in
                absurd (ground (arith, here, ap (get_or (set old.present i true)) q, gone))
            | no ne ↦
                get_or-set_ne old.slots i j bytes [] ne
                ∙ o.empty j (sym (get_or-set_ne old.present i j true false ne) ∙ gone)
          ];
          counted =
              received_sum
              ∙ omega (arith, o.counted, count-set old.present i (omega (arith, l, o.marks)) new);
          unfinished = unfinished;
          few = omega (arith, same, o.few);
          sized = next_size;
          small = fits;
          charged = o.charged ∙ ap (structural_cost vector_size) (sym same);
        }

    pub filled-Kept : Kept vector_size m (state_of (filled at msg_id next (length bytes) m))
    unfolding filled assemble_and_evict without evict evict_at
    filled-Kept =
        if_elim (λ r. Kept vector_size m (state_of r)) (ltb next.received (length next.slots)) _ _
          (λ e. record {
            sound = record {
              accounted = grown-charge;
              capped = held_fits;
              word = h.word;
              ceiling = h.ceiling;
              every =
                  All-set (λ (x : ℕ × Entry). IsOpen vector_size m.cfg.max_message_size x.1) at
                    (msg_id, next) m.table.entries (next-IsOpen (ground (arith, e))) h.every;
            };
            same_cfg = refl;
            modest = tt;
          })
          (λ e. record {
            sound = rw ((found_place msg_id m.table at found).1 next) (
                without-Sound vector_size at grown
                  (omega (arith, inside, length-set m.table.entries at (msg_id, next))) grown-charge
                  held_fits h.word h.ceiling
                  (rw (remove_at-set at (msg_id, next) m.table.entries)
                    (All-remove_at _ at m.table.entries h.every)));
            same_cfg = evict-cfg msg_id grown;
            modest = (omega (arith, next_size, next_small), tt);
          })
