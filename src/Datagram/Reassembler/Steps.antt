-- ===== src/Datagram/Reassembler/Steps.antt =====
-- Each operation of a reassembler keeps it sound.
use plexus.Common.{ℕ, ◌+◌, ◌/◌, ◌^◌, ◌≤◌, ◌<◌, ◌≡◌, refl, sym, ap, ◌∙◌, arith, true, false, ◌||◌}
use plexus.Common.{
  if_elim, ltb, leb, ◌==◌, Bool-cases, Option-cases, inl, inr, Option, none, some, List, [], ◌++◌,
  length, get_or, All, All-append, length-replicate, get_or-replicate,
}
use plexus.Datagram.Fragmentation.{max_fragment_count}
use plexus.Datagram.ReassemblerFlatMap.{find, size, cap_implied_max_partials}
use plexus.Datagram.Reassembler.{
  Reassembler, Entry, Outcome, Effect, plus64, structural_cost, new_entry, entry_at, put_entry,
}
use plexus.Datagram.Reassembler.{
  in_flight, store, open_entry, store_opened, admit_at, admit_fragment, report, feed, expired,
  ended, fire, cancel, admitted, completed, dropped_malformed, dropped_cap,
}
use plexus.Datagram.Reassembler.Entries.{
  place, opening, find-opening, first_entry, feed-first, plus64-exact,
}
use plexus.Datagram.Reassembler.Parts.{count-replicate, total-replicate}
use plexus.Datagram.Reassembler.Charges.{
  IsOpen, charge-insert_at, charge-least, All-insert_at, idle, idled_cost, idled_state,
  each_idled_cost, each_idled_state,
}
use plexus.Datagram.Reassembler.Bounds.{
  Sound, Kept, IsModest, state_of, stays, evict-Sound, evict-cfg, filled-Kept,
}
use native.Mathlib.Nat.{mul-le-mul, le-div_iff_mul-le}

report-IsModest : (n : ℕ) (o : Outcome) → All (IsModest n) (report o)
unfolding report
report-IsModest n admitted = tt
report-IsModest n completed = tt
report-IsModest n dropped_malformed = (tt, tt)
report-IsModest n dropped_cap = (tt, tt)

structural_cost-bound :
    (vector_size n : ℕ) → vector_size ≤ 2 ^ 16 → n ≤ 32768 → structural_cost vector_size n ≤ 2 ^ 32
unfolding structural_cost
structural_cost-bound vector_size n p q = omega (arith, mul-le-mul q p)

-- A fragment of a message that is open.
module _ (vector_size msg_id at : ℕ) (m : Reassembler) (h : Sound vector_size m)
    (found : find msg_id m.table ≡ some at) (i cnt : ℕ) (bytes : List ℕ)
    (short : length bytes < 2 ^ 62) where
  store-Kept : Kept vector_size m (state_of (store at msg_id i bytes m))
  unfolding store
  store-Kept =
      let e = entry_at at m in
      if_elim (λ r. Kept vector_size m (state_of r)) (leb (length e.slots) i) _ _
        (λ out. stays vector_size m h)
        (λ inside.
          if_elim (λ r. Kept vector_size m (state_of r)) (get_or e.present i false) _ _
            (λ there. stays vector_size m h)
            (λ gone.
              if_elim (λ r. Kept vector_size m (state_of r))
                (ltb m.cfg.max_message_size (plus64 e.size (length bytes))
                  || ltb m.cfg.total_memory_cap (plus64 m.held (length bytes)))
                _ _ (λ over. stays vector_size m h)
                (λ fits.
                  filled-Kept vector_size msg_id at m h found i bytes short (ground (arith, inside))
                    gone (ground (arith, fits)) (ground (arith, fits)))))

  reported :
      (r : Reassembler × Outcome × List Effect)
      → Kept vector_size m (state_of r)
      → Kept vector_size m (state_of (r.0, r.1, r.2 ++ report r.1))
  reported (m', o, effects) k = record {
    sound = k.sound;
    same_cfg = k.same_cfg;
    modest =
        All-append (IsModest m.cfg.max_message_size) effects (report o) k.modest
          (report-IsModest m.cfg.max_message_size o);
  }

  feed_found-Kept : Kept vector_size m (state_of (feed vector_size msg_id i cnt bytes m))
  unfolding feed admit_fragment admit_at
  feed_found-Kept = rw found (
      reported _ (
        if_elim (λ r. Kept vector_size m (state_of r))
          ((cnt == 0) || (leb cnt i || ltb max_fragment_count cnt)) _ _
          (λ out. stays vector_size m h) (λ e. store-Kept)))

-- There is a place for one message more wherever its cost fits the cap.
pub Sound-count :
    (vector_size : ℕ) (m : Reassembler)
    → Sound vector_size m
    → in_flight m ≤ m.cfg.total_memory_cap / structural_cost vector_size 1
unfolding in_flight
Sound-count vector_size m h =
    let some_cost : 0 < structural_cost vector_size 1 = unfold structural_cost in omega arith in
    (le-div_iff_mul-le some_cost).1 (
      omega (
        arith,
        h.accounted,
        h.capped,
        charge-least vector_size m.cfg.max_message_size m.table.entries h.every,
      ))

Sound-free :
    (vector_size : ℕ) (m : Reassembler) → Sound vector_size m → size m.table < m.table.max_entries
unfolding cap_implied_max_partials in_flight
Sound-free vector_size m h = omega (arith, h.ceiling, Sound-count vector_size m h)

first_entry-IsOpen :
    (vector_size max msg_id n : ℕ)
    → 0 < n
    → n ≤ 32768
    → IsOpen vector_size max (first_entry vector_size msg_id n)
unfolding first_entry new_entry
first_entry-IsOpen vector_size max msg_id n p q =
    let all = length-replicate {A = List ℕ} n [] in
    record {
      marks = length-replicate n false ∙ sym all;
      empty = λ i e. get_or-replicate n i [];
      counted = sym (count-replicate n);
      unfinished = omega (arith, all, p);
      few = omega (arith, all, q);
      sized = sym (total-replicate n);
      small = omega arith;
      charged = ap (structural_cost vector_size) (sym all);
    }

module _ (vector_size : ℕ) (fits_size : vector_size ≤ 2 ^ 16) (m : Reassembler)
    (h : Sound vector_size m) where
  -- The state with the message open, before its first fragment is stored.
  opening-Sound :
      (msg_id n : ℕ)
      → 0 < n
      → n ≤ 32768
      → m.held + structural_cost vector_size n ≤ m.cfg.total_memory_cap
      → Sound vector_size (
          opening msg_id
            (first_entry vector_size msg_id n)
            (m.held + structural_cost vector_size n)
            m)
  unfolding first_entry new_entry
  opening-Sound msg_id n p q fits =
      let e = first_entry vector_size msg_id n in
      record {
        accounted =
            omega
              (arith, h.accounted, charge-insert_at (place msg_id m) (msg_id, e) m.table.entries);
        capped = fits;
        word = h.word;
        ceiling = h.ceiling;
        every =
            All-insert_at (λ (x : ℕ × Entry). IsOpen vector_size m.cfg.max_message_size x.1)
              (place msg_id m) (msg_id, e) m.table.entries
              (first_entry-IsOpen vector_size m.cfg.max_message_size msg_id n p q) h.every;
      }

  feed_malformed :
      (msg_id i cnt : ℕ) (bytes : List ℕ)
      → ((cnt == 0) || (leb cnt i || ltb max_fragment_count cnt)) ≡ true
      → Kept vector_size m (state_of (feed vector_size msg_id i cnt bytes m))
  unfolding feed report
  feed_malformed msg_id i cnt bytes out =
      rw out (record { sound = h; same_cfg = refl; modest = (tt, tt) })

  feed_over :
      (msg_id i cnt : ℕ) (bytes : List ℕ)
      → ((cnt == 0) || (leb cnt i || ltb max_fragment_count cnt)) ≡ false
      → find msg_id m.table ≡ none
      → ltb m.cfg.total_memory_cap
          (plus64 (plus64 m.held (structural_cost vector_size cnt)) (length bytes))
        ≡ true
      → Kept vector_size m (state_of (feed vector_size msg_id i cnt bytes m))
  unfolding feed admit_fragment admit_at open_entry store_opened report
  feed_over msg_id i cnt bytes shape absent over =
      rw (shape, absent, admit_at, over) (record { sound = h; same_cfg = refl; modest = (tt, tt) })

  -- The branches of a fragment that finds no open message.
  feed_absent-Kept :
      (msg_id i cnt : ℕ) (bytes : List ℕ)
      → length bytes < 2 ^ 62
      → find msg_id m.table ≡ none
      → Kept vector_size m (state_of (feed vector_size msg_id i cnt bytes m))
  feed_absent-Kept msg_id i cnt bytes short absent =
      elim (Bool-cases ((cnt == 0) || (leb cnt i || ltb max_fragment_count cnt))) [
        | inl out ↦ feed_malformed msg_id i cnt bytes out
        | inr shape ↦
            let l : i < cnt = ground (arith, shape) in
            let few : cnt ≤ 32768 = ground (arith, shape) in
            let cost = structural_cost vector_size cnt in
            let bound = structural_cost-bound vector_size cnt fits_size few in
            let s : plus64 m.held cost ≡ m.held + cost =
              plus64-exact m.held cost (omega (arith, h.capped, h.word, bound)) in
            let s' : plus64 (m.held + cost) (length bytes) ≡ m.held + cost + length bytes =
              plus64-exact (m.held + cost) (length bytes)
                (omega (arith, h.capped, h.word, bound, short)) in
            elim (Bool-cases (ltb m.cfg.total_memory_cap (m.held + cost + length bytes))) [
              | inl over ↦ feed_over msg_id i cnt bytes shape absent (
                  ap (ltb m.cfg.total_memory_cap) (ap (λ t. plus64 t (length bytes)) s ∙ s') ∙ over)
              | inr fits ↦
                  let room : m.held + cost + length bytes ≤ m.cfg.total_memory_cap =
                    ground (arith, fits) in
                  let e = first_entry vector_size msg_id cnt in
                  let opened =
                    opening-Sound msg_id cnt (omega (arith, l)) few (omega (arith, room)) in
                  let k =
                    feed_found-Kept vector_size msg_id (place msg_id m)
                      (opening msg_id e (m.held + cost) m) opened
                      (find-opening msg_id e (m.held + cost) m) i cnt bytes short in
                  rw
                    (feed-first vector_size msg_id m cnt bytes absent (Sound-free vector_size m h)
                      room (omega (arith, h.word)) i l few)
                    (record { sound = k.sound; same_cfg = k.same_cfg; modest = (tt, k.modest) })
            ]
      ]

  pub feed-Kept :
      (msg_id i cnt : ℕ) (bytes : List ℕ)
      → length bytes < 2 ^ 62
      → Kept vector_size m (state_of (feed vector_size msg_id i cnt bytes m))
  feed-Kept msg_id i cnt bytes short = elim (Option-cases (find msg_id m.table)) [
    | inl absent ↦ feed_absent-Kept msg_id i cnt bytes short absent
    | inr (at, found) ↦ feed_found-Kept vector_size msg_id at m h found i cnt bytes short
  ]

  expired-Kept : (msg_id : ℕ) → Kept vector_size m (expired msg_id m)
  unfolding expired
  expired-Kept msg_id =
      if_elim (Kept vector_size m) m.dead _ _ (λ e. stays vector_size m h)
        (λ e. record {
          sound = evict-Sound vector_size m h msg_id;
          same_cfg = evict-cfg msg_id m;
          modest = (tt, tt);
        })

  pub cancel-Sound : Sound vector_size (cancel m)
  unfolding cancel
  cancel-Sound = record {
    accounted = h.accounted ∙ sym (each_idled_cost m.table.entries);
    capped = h.capped;
    word = h.word;
    ceiling = h.ceiling;
    every = each_idled_state vector_size m.cfg.max_message_size m.table.entries h.every;
  }

module _ (vector_size : ℕ) (fits_size : vector_size ≤ 2 ^ 16) (m : Reassembler)
    (h : Sound vector_size m) where
  ended-Kept : (timer : Option ℕ) (at : ℕ) → Kept vector_size m (ended timer at m)
  unfolding ended
  ended-Kept none at = stays vector_size m h
  ended-Kept (some msg_id) at =
      let m' : Reassembler = put_entry at msg_id (idle (entry_at at m)) m in
      let sound : Sound vector_size m' = record {
        accounted = h.accounted ∙ sym (idled_cost msg_id at m.table.entries);
        capped = h.capped;
        word = h.word;
        ceiling = h.ceiling;
        every = idled_state vector_size m.cfg.max_message_size msg_id at m.table.entries h.every;
      } in
      let k = expired-Kept vector_size fits_size m' sound msg_id in
      record { sound = k.sound; same_cfg = k.same_cfg; modest = k.modest }

  pub fire-Kept : (at : ℕ) → Kept vector_size m (fire at m)
  unfolding fire
  fire-Kept at = ended-Kept (entry_at at m).timer at
