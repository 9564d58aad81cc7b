-- ===== src/Datagram/Reassembler/Complete.antt =====
-- A message that was split and is fed in any order.
use plexus.Common.{
  ℕ, ◌+◌, ◌^◌, ◌≤◌, ◌<◌, ◌≡◌, refl, sym, ap, ◌∙◌, ◌≢◌, arith, Bool, true, false, ◌||◌,
}
use plexus.Common.{
  Bool-cases, inl, inr, none, List, [], ◌∷◌, ◌++◌, map, length, length-map, get_or, get_or-map,
  concat, All, elem, elem-cons_self, elem-cons_ne,
}
use plexus.Datagram.Fragmentation.{Fragment, split, max_fragment_count}
use plexus.Datagram.Fragmentation.Pieces.{no_fragment, slices, split-Splits}
use plexus.Datagram.ReassemblerFlatMap.{find, size}
use plexus.Datagram.Reassembler.{
  Reassembler, Entry, Effect, Outcome, structural_cost, new_entry, feed,
}
use plexus.Datagram.Reassembler.Entries.{opening, first_entry, feed-first}
use plexus.Datagram.Reassembler.Parts.{Part, Part-again, first_entry-Part, total, get_or-total}
use plexus.Datagram.Reassembler.Stored.{
  HasRoom, beside, feed_frag, feed_again, next-Part, feed_more, feed_last,
}
use mathlib.Core.Path.{subst}
use native.Mathlib.Decide.{ℕ_discrete}

-- What a sequence of fragments does, all of one message.
abbrev pub feeds : ℕ → ℕ → List Fragment → Reassembler → Reassembler × List Effect
feeds vector_size msg_id [] m = (m, [])
feeds vector_size msg_id (f ∷ fs) m =
    let (m', o, now) = feed vector_size msg_id f.frag_idx f.frag_cnt f.slice m in
    let (m'', later) = feeds vector_size msg_id fs m' in (m'', now ++ later)

-- All the positions below `n` but `last` are among `seen` and `rest`.
abbrev IsAllBut : ℕ → ℕ → List ℕ → List ℕ → Type 0
IsAllBut n last seen rest = (j : ℕ) → j < n → j ≢ last → (elem j seen || elem j rest) ≡ true

IsAllBut-shift :
    (n last i : ℕ) (seen rest : List ℕ)
    → IsAllBut n last seen (i ∷ rest)
    → IsAllBut n last (i ∷ seen) rest
unfolding elem
IsAllBut-shift n last i seen rest h j l ne = let e = h j l ne in ground (arith, e)

module _ (vector_size msg_id : ℕ) (m : Reassembler) (fs : List Fragment)
    (numbered : (i : ℕ)
      → i < length fs
      → ((get_or fs i no_fragment).frag_idx ≡ i) × ((get_or fs i no_fragment).frag_cnt ≡ length fs))
    (r : HasRoom vector_size m (slices fs)) where
  abbrev n : ℕ
  n = length (slices fs)

  abbrev pub nth : ℕ → Fragment
  nth i = get_or fs i no_fragment

  feed-nth :
      (i : ℕ) (s : Reassembler)
      → i < n
      → feed vector_size msg_id (nth i).frag_idx (nth i).frag_cnt (nth i).slice s
        ≡ feed_frag vector_size msg_id m (slices fs) r i s
  feed-nth i s l =
      let size = length-map (λ (f : Fragment). f.slice) fs in
      let (at, cnt) = numbered i (omega (arith, l, size)) in
      rw (at, cnt, ← size, ← get_or-map (λ (f : Fragment). f.slice) fs i no_fragment) refl

  feeds-beside :
      (rest : List ℕ) (last : ℕ) (seen : List ℕ) (e : Entry)
      → Part (structural_cost vector_size n) (slices fs) seen e
      → last < n
      → All (λ i. i < n) rest
      → elem last seen ≡ false
      → elem last rest ≡ false
      → IsAllBut n last seen rest
      → feeds vector_size msg_id (map nth (rest ++ (last ∷ []))) (beside msg_id e m)
        ≡ (m, Effect.delivered (concat (slices fs)) ∷ [])
  unfolding elem
  feeds-beside [] last seen e h l ls new unseen all =
      let every : (j : ℕ) → j < n → elem j (last ∷ seen) ≡ true = λ j p. elim (ℕ_discrete j last) [
        | yes q ↦ ap (λ t. elem t (last ∷ seen)) q ∙ elem-cons_self last seen
        | no ne ↦ let a = all j p ne in ground (arith, a)
      ] in
      rw
        (
          feed-nth last (beside msg_id e m) l,
          feed_last vector_size msg_id m (slices fs) r seen e h last l new every,
        )
        refl
  feeds-beside (i ∷ rest) last seen e h l (li, ls) new unseen all =
      let apart : last ≢ i = ground (arith, unseen) in
      let unseen' : elem last rest ≡ false = ground (arith, unseen) in
      let new' : elem last (i ∷ seen) ≡ false = elem-cons_ne last i seen apart ∙ new in
      let all' = IsAllBut-shift n last i seen rest all in
      elim (Bool-cases (elem i seen)) [
        | inl old ↦
            rw
              (
                feed-nth i (beside msg_id e m) li,
                feed_again vector_size msg_id m (slices fs) r seen e h i li old,
              )
              (feeds-beside rest last (i ∷ seen) e
                (Part-again (structural_cost vector_size n) (slices fs) seen e h i old) l ls new'
                unseen' all')
        | inr fresh ↦
            rw
              (
                feed-nth i (beside msg_id e m) li,
                feed_more vector_size msg_id m (slices fs) r seen e h i li fresh last l new',
              )
              (feeds-beside rest last (i ∷ seen) _
                (next-Part vector_size msg_id m (slices fs) r seen e h i li fresh) l ls new' unseen'
                all')
      ]

  abbrev armed_first : Reassembler × List Effect → Reassembler × List Effect
  armed_first (m', effects) = (m', Effect.armed msg_id m.cfg.per_message_timeout ∷ effects)

  -- The first fragment opens the message.
  feeds_first :
      (i : ℕ) (later : List Fragment)
      → find msg_id m.table ≡ none
      → size m.table < m.table.max_entries
      → i < n
      → feeds vector_size msg_id (nth i ∷ later) m
        ≡ armed_first (
            feeds vector_size msg_id
              (nth i ∷ later)
              (beside msg_id (first_entry vector_size msg_id n) m))
  unfolding first_entry new_entry
  feeds_first i later absent free l =
      let e = first_entry vector_size msg_id n in
      let cost = structural_cost vector_size n in
      let bytes = get_or (slices fs) i [] in
      let fits : m.held + cost + length bytes ≤ m.cfg.total_memory_cap =
        omega (arith, r.room, get_or-total (slices fs) i) in
      let held : m.held + cost ≡ m.held + e.overhead + e.size = omega arith in
      let start = feed-first vector_size msg_id m n bytes absent free fits r.word i l r.few in
      rw (feed-nth i m l, feed-nth i (beside msg_id e m) l)
        (ap
            (λ (x : Reassembler × Outcome × List Effect).
              let (m'', after) = feeds vector_size msg_id later x.0 in (m'', x.2 ++ after))
            start
          ∙ ap
              (λ h.
                let x = feed vector_size msg_id i n bytes (opening msg_id e h m) in
                let (m'', after) = feeds vector_size msg_id later x.0 in
                armed_first (m'', x.2 ++ after))
              held)

  pub feeds-nth :
      (rest : List ℕ) (last : ℕ)
      → find msg_id m.table ≡ none
      → size m.table < m.table.max_entries
      → last < n
      → All (λ i. i < n) rest
      → elem last rest ≡ false
      → IsAllBut n last [] rest
      → feeds vector_size msg_id (map nth (rest ++ (last ∷ []))) m ≡ (
        m,
        Effect.armed msg_id m.cfg.per_message_timeout ∷ Effect.delivered (concat (slices fs)) ∷ [],
      )
  unfolding elem
  feeds-nth rest last absent free l ls unseen all =
      let run =
        feeds-beside rest last [] (first_entry vector_size msg_id n)
          (first_entry-Part vector_size msg_id (slices fs)) l ls refl unseen all in
      opened_by rest ls ∙ ap armed_first run
    where
      opened_by :
          (rest : List ℕ)
          → All (λ i. i < n) rest
          → feeds vector_size msg_id (map nth (rest ++ (last ∷ []))) m
            ≡ armed_first (
                feeds vector_size msg_id
                  (map nth (rest ++ (last ∷ [])))
                  (beside msg_id (first_entry vector_size msg_id n) m))
      opened_by [] ls = feeds_first last [] absent free l
      opened_by (i ∷ rest) (li, ls) = feeds_first i (map nth (rest ++ (last ∷ []))) absent free li

-- Where no partial message has the number, and there is room for the message, its fragments, fed in
-- any order and any number of times up to the last one that is missing, arm one wait and deliver the
-- message, once, and leave the reassembler as it was.
pub feeds-split :
    (vector_size msg_id : ℕ) (m : Reassembler) (payload : List ℕ) (transport : ℕ) (aead : Bool)
    (rest : List ℕ) (last : ℕ)
    → find msg_id m.table ≡ none
    → size m.table < m.table.max_entries
    → length payload ≤ 2 ^ 38
    → (split payload transport aead).0 ≤ max_fragment_count
    → length payload ≤ m.cfg.max_message_size
    → m.cfg.max_message_size < 2 ^ 64
    → m.held + structural_cost vector_size (split payload transport aead).0 + length payload
      ≤ m.cfg.total_memory_cap
    → m.cfg.total_memory_cap < 2 ^ 64
    → last < (split payload transport aead).0
    → All (λ i. i < (split payload transport aead).0) rest
    → elem last rest ≡ false
    → ((j : ℕ) → j < (split payload transport aead).0 → j ≢ last → elem j rest ≡ true)
    → feeds vector_size msg_id
        (map (λ i. get_or (split payload transport aead).1 i no_fragment) (rest ++ (last ∷ [])))
        m
      ≡ (m, Effect.armed msg_id m.cfg.per_message_timeout ∷ Effect.delivered payload ∷ [])
unfolding elem
feeds-split vector_size msg_id m payload transport aead rest last absent free short few small
      word_message room word l ls unseen all =
    let (n, fs) = split payload transport aead in
    let (s, _, _) = split-Splits payload transport aead short in
    let size : length (slices fs) ≡ n = length-map (λ (f : Fragment). f.slice) fs ∙ s.counted in
    let whole : total (slices fs) ≡ length payload = ap (λ t. length t) s.joined in
    let numbered : (i : ℕ)
        → i < length fs
        → ((get_or fs i no_fragment).frag_idx ≡ i)
          × ((get_or fs i no_fragment).frag_cnt ≡ length fs) =
      λ i p.
        let (at, cnt, _) = s.numbered i (omega (arith, p, s.counted)) in
        (at, cnt ∙ sym s.counted) in
    let r : HasRoom vector_size m (slices fs) = record {
      few = omega (arith, size, few);
      small = omega (arith, whole, small);
      room = rw (size, whole) room;
      word = word;
      word_message = word_message;
    } in
    feeds-nth vector_size msg_id m fs numbered r rest last absent free (omega (arith, size, l))
      (subst (λ t. All (λ i. i < t) rest) (sym size) ls) unseen
      (λ j p ne. all j (omega (arith, size, p)) ne)
    ∙ ap (λ t. (m, Effect.armed msg_id m.cfg.per_message_timeout ∷ Effect.delivered t ∷ []))
        s.joined
