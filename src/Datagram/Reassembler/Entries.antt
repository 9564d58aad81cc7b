-- ===== src/Datagram/Reassembler/Entries.antt =====
-- The table with one message open beside what it held.
use plexus.Common.{ℕ, ◌+◌, ◌^◌, ◌≤◌, ◌<◌, ◌≡◌, refl, ap, ◌∙◌, arith, false}
use plexus.Common.{length}
use plexus.Datagram.Fragmentation.{max_fragment_count}
use plexus.Common.{none, some, List, [], ◌∷◌, insert_at, leb, ltb, ◌==◌, ◌||◌}
use plexus.Datagram.ReassemblerFlatMap.{lower_bound, find, emplace, erase, size}
use plexus.Datagram.ReassemblerFlatMap.Slots.{
  get_or-insert_at, set-insert_at, remove_at-insert_at, lower_bound-length, lower_bound-insert_at,
  has_key-insert_at,
}
use plexus.Datagram.Reassembler.{
  Reassembler, Entry, Effect, no_entry, plus64, minus64, entry_at, put_entry,
}
use plexus.Datagram.Reassembler.{
  evict, evict_at, opened, open_entry, new_entry, arm_timeout, structural_cost, admit_fragment,
  admit_at, store_opened, feed,
}
use native.Mathlib.Nat.{mod-eq_of_lt}

pub plus64-exact : (a b : ℕ) → a + b < 2 ^ 64 → plus64 a b ≡ a + b
unfolding plus64
plus64-exact a b p = mod-eq_of_lt p

pub minus64-exact : (a b : ℕ) → a + b < 2 ^ 64 → minus64 (a + b) b ≡ a
unfolding minus64
minus64-exact a b p = omega (arith, p)

abbrev pub place : ℕ → Reassembler → ℕ
place msg_id m = lower_bound msg_id m.table.entries

-- `m` with the entry `e` of the message open, and `held` bytes.
abbrev pub opening : ℕ → Entry → ℕ → Reassembler → Reassembler
opening msg_id e held m = record m {
  held = held;
  table = record m.table { entries = insert_at (place msg_id m) (msg_id, e) m.table.entries };
}

module _ (msg_id : ℕ) (e : Entry) (held : ℕ) (m : Reassembler) where
  pub find-opening : find msg_id (opening msg_id e held m).table ≡ some (place msg_id m)
  unfolding find
  find-opening =
      rw
        (lower_bound-insert_at msg_id e m.table.entries, has_key-insert_at msg_id e m.table.entries)
        refl

  pub entry_at-opening : entry_at (place msg_id m) (opening msg_id e held m) ≡ e
  entry_at-opening =
      ap (λ (t : ℕ × Entry). t.1)
        (get_or-insert_at (place msg_id m) (msg_id, e) (0, no_entry) m.table.entries
          (lower_bound-length msg_id e m.table.entries))

  pub put_entry-opening :
      (e' : Entry)
      → put_entry (place msg_id m) msg_id e' (opening msg_id e held m) ≡ opening msg_id e' held m
  put_entry-opening e' =
      ap (λ t. record m { held = held; table = record m.table { entries = t } })
        (set-insert_at (place msg_id m) (msg_id, e) (msg_id, e') m.table.entries
          (lower_bound-length msg_id e m.table.entries))

  pub evict-opening :
      evict msg_id (opening msg_id e held m)
      ≡ record m { held = minus64 held (plus64 e.size e.overhead) }
  unfolding evict evict_at erase
  evict-opening =
      rw (find-opening, entry_at-opening)
        (ap
          (λ t. record m {
            held = minus64 held (plus64 e.size e.overhead);
            table = record m.table { entries = t };
          })
          (remove_at-insert_at (place msg_id m) (msg_id, e) m.table.entries
            (lower_bound-length msg_id e m.table.entries)))

-- The entry of a message that was just opened.
unfoldable pub first_entry : ℕ → ℕ → ℕ → Entry
first_entry vector_size msg_id frag_cnt = record (new_entry vector_size frag_cnt) {
  timer = some msg_id;
}

-- What the fragment does that opens a message, where there is room for it.
module _ (vector_size msg_id : ℕ) (m : Reassembler) (frag_cnt : ℕ) (bytes : List ℕ)
    (absent : find msg_id m.table ≡ none) (slot_free : size m.table < m.table.max_entries)
    (room : m.held + structural_cost vector_size frag_cnt + length bytes ≤ m.cfg.total_memory_cap)
    (word : m.cfg.total_memory_cap < 2 ^ 64) where
  pub open_entry_lem :
      open_entry vector_size msg_id frag_cnt (length bytes) m
      ≡ some (
        place msg_id m,
        opening msg_id
            (first_entry vector_size msg_id frag_cnt)
            (m.held + structural_cost vector_size frag_cnt)
            m,
        Effect.armed msg_id m.cfg.per_message_timeout ∷ [],
      )
  unfolding open_entry opened emplace arm_timeout first_entry new_entry
  open_entry_lem =
      let cost = structural_cost vector_size frag_cnt in
      let e = new_entry vector_size frag_cnt in
      let armed : List Effect = Effect.armed msg_id m.cfg.per_message_timeout ∷ [] in
      let s : plus64 m.held cost ≡ m.held + cost =
        plus64-exact m.held cost (omega (arith, room, word)) in
      let s' : plus64 (m.held + cost) (length bytes) ≡ m.held + cost + length bytes =
        plus64-exact (m.held + cost) (length bytes) (omega (arith, room, word)) in
      let fits : ltb m.cfg.total_memory_cap (m.held + cost + length bytes) ≡ false =
        ground (arith, room) in
      let free : leb m.table.max_entries (size m.table) ≡ false = ground (arith, slot_free) in
      rw (s, s', fits, free)
        (ap
            (λ (x : Entry). some (
              place msg_id m,
              put_entry (place msg_id m) msg_id (record x { timer = some msg_id })
                  (opening msg_id e (plus64 m.held x.overhead) m),
              armed,
            ))
            (entry_at-opening msg_id e m.held m)
          ∙ ap
              (λ h. some (
                place msg_id m,
                put_entry (place msg_id m) msg_id (record e { timer = some msg_id })
                    (opening msg_id e h m),
                armed,
              ))
              s
          ∙ ap (λ t. some (place msg_id m, t, armed))
              (put_entry-opening msg_id e (m.held + cost) m (record e { timer = some msg_id })))

  -- Beside the wait that it arms, the first fragment is stored as one that finds the message open.
  pub feed-first :
      (frag_idx : ℕ)
      → frag_idx < frag_cnt
      → frag_cnt ≤ 32768
      → (feed vector_size msg_id frag_idx frag_cnt bytes m ≡ (
          let e = first_entry vector_size msg_id frag_cnt in
          let (m', o, effects) =
            feed vector_size msg_id frag_idx frag_cnt bytes
              (opening msg_id e (m.held + structural_cost vector_size frag_cnt) m) in
          (m', o, Effect.armed msg_id m.cfg.per_message_timeout ∷ effects)))
  unfolding feed admit_fragment admit_at store_opened
  feed-first frag_idx l few =
      let e = first_entry vector_size msg_id frag_cnt in
      let sound : (frag_cnt == 0) || (leb frag_cnt frag_idx || ltb max_fragment_count frag_cnt)
          ≡ false =
        ground (arith, l, few) in
      rw
        (
          sound,
          admit_fragment,
          absent,
          find-opening msg_id e (m.held + structural_cost vector_size frag_cnt) m,
        )
        (rw (admit_at, open_entry_lem) refl)
