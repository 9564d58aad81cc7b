-- ===== src/Datagram/SendQueue/Front.antt =====
-- The queue against the frames that were accepted and handed over, and what its front does.
use plexus.Common.{
  ℕ, ◌+◌, ◌-◌, ◌%◌, ◌^◌, ◌≤◌, ◌<◌, ◌≡◌, refl, sym, ap, ◌∙◌, arith, Bool, true, false, not, ◌&&◌,
  ltb, leb,
}
use plexus.Common.{
  if◌then◌else◌, ◌⊎◌, ◌>>=◌, Option, none, some, List, [], ◌∷◌, ◌++◌, length, drop, append-nil,
  append_assoc,
}
use plexus.Datagram.SendQueue.{
  Node, SendQueue, admits, take_buffer, recycle_buffer, drive_front, drive, push_back, enqueue,
  close, complete_front, complete,
}
use native.Mathlib.Nat.{mod-eq_of_lt}

module _ {ℓ} {E : Type ℓ} where
  abbrev pub total : List (Node E) → ℕ
  total [] = 0
  total (n ∷ ns) = length n.bytes + total ns

  total-append :
      (ns : List (Node E)) (n : Node E) → total (ns ++ (n ∷ [])) ≡ total ns + length n.bytes
  total-append [] n = omega arith
  total-append (x ∷ ns) n = omega (arith, total-append ns n)

  -- What is not handed over yet: the front is, while it is sent.
  abbrev pub waiting : SendQueue E → List (Node E)
  waiting m = drop 1 m.queue

  abbrev pub is_busy : List (Node E) → Bool
  is_busy [] = false
  is_busy (n ∷ ns) = true

  -- Against the frames that were accepted and those that were handed over.
  pub record Holds (m : SendQueue E) (accepted handed : List (Node E)) : Type ℓ where
    pub counted : m.bytes ≡ total m.queue
    pub capped : m.bytes ≤ m.byte_cap
    pub word : m.byte_cap < 2 ^ 64
    pub busy : m.sending ≡ is_busy m.queue
    pub in_order : m.is_open ≡ true → accepted ≡ handed ++ waiting m

pub data Event {ℓ} (E : Type ℓ) : Type ℓ where
  enqueued : List ℕ → E → Event E
  completed closed : Event E

-- A queue with the frames that it has accepted and handed over so far.
pub record State {ℓ} (E : Type ℓ) : Type ℓ where
  pub queue : SendQueue E
  pub accepted : List (Node E)
  pub handed : List (Node E)

admitted_sum :
    (byte_cap bytes size : ℕ)
    → byte_cap < 2 ^ 64
    → (ltb bytes byte_cap && leb size (byte_cap - bytes)) ≡ true
    → ((bytes + size) % 2 ^ 64 ≡ bytes + size) × (bytes + size ≤ byte_cap)
admitted_sum byte_cap bytes size word fits =
    let l : bytes + size ≤ byte_cap = ground (arith, fits) in
    (mod-eq_of_lt (omega (arith, word, l)), l)

given_back :
    (bytes size rest : ℕ)
    → bytes < 2 ^ 64
    → bytes ≡ size + rest
    → (bytes + 2 ^ 64 - size) % 2 ^ 64 ≡ rest
given_back bytes size rest word e = omega (arith, word, e)

module _ {ℓ} {E : Type ℓ} where
  -- What the state becomes by what an operation leaves and hands over.
  abbrev pub after : State E → List (Node E) → SendQueue E × List (Node E) → State E
  after s new (m, out) = record {
    queue = m;
    accepted = s.accepted ++ new;
    handed = s.handed ++ out;
  }

  abbrev pub step : Event E → State E → Option (State E)
  step (enqueued bytes dest) s =
      let (m, ok, out) = enqueue bytes dest s.queue in
      some (after s (if ok then record { bytes = bytes; dest = dest } ∷ [] else []) (m, out))
  step completed s = do r ← complete s.queue; some (after s [] r)
  step closed s = some (after s [] (close s.queue, []))

  abbrev pub run : List (Event E) → State E → Option (State E)
  run [] s = some s
  run (e ∷ es) s = do s' ← step e s; run es s'

  -- A completion comes while a frame is with the transport, or after the close.
  abbrev pub IsDue : Event E → State E → Type 0
  IsDue (enqueued bytes dest) s = Unit
  IsDue completed s = (s.queue.sending ≡ true) ⊎ (s.queue.is_open ≡ false)
  IsDue closed s = Unit

  abbrev pub After : (State E → Type 0) → Option (State E) → Type 0
  After P none = Unit
  After P (some s) = P s

  unfoldable pub AreDue : List (Event E) → State E → Type 0
  AreDue [] s = Unit
  AreDue (e ∷ es) s = IsDue e s × After (AreDue es) (step e s)

  abbrev pub Sound : State E → Type ℓ
  Sound s = Holds s.queue s.accepted s.handed

  abbrev made : ℕ → List (Node E) → ℕ → ℕ → Bool → Bool → SendQueue E
  made byte_cap queue free_buffers bytes is_open sending = record {
    byte_cap = byte_cap;
    queue = queue;
    free_buffers = free_buffers;
    bytes = bytes;
    is_open = is_open;
    sending = sending;
  }

  first_in_order :
      (accepted handed : List (Node E)) (n : Node E)
      → accepted ≡ handed ++ []
      → accepted ++ (n ∷ []) ≡ (handed ++ (n ∷ [])) ++ []
  first_in_order accepted handed n e =
      ap (λ t. t ++ (n ∷ [])) (e ∙ append-nil handed) ∙ sym (append-nil (handed ++ (n ∷ [])))

  later_in_order :
      (accepted handed ns : List (Node E)) (n : Node E)
      → accepted ≡ handed ++ ns
      → accepted ++ (n ∷ []) ≡ (handed ++ []) ++ (ns ++ (n ∷ []))
  later_in_order accepted handed ns n e =
      ap (λ t. t ++ (n ∷ [])) e
      ∙ append_assoc handed ns (n ∷ [])
      ∙ ap (λ t. t ++ (ns ++ (n ∷ []))) (sym (append-nil handed))

  -- The frame is behind those that wait.
  pub push_back-Holds :
      (byte_cap : ℕ) (queue : List (Node E)) (free bytes : ℕ) (is_open sending : Bool)
      (accepted handed : List (Node E)) (node : Node E)
      → Holds (made byte_cap queue free bytes is_open sending) accepted handed
      → admits (length node.bytes) (made byte_cap queue free bytes is_open sending) ≡ true
      → let m = push_back node (made byte_cap queue free bytes is_open sending) in
        let (m', out) = if not sending then drive m else (m, []) in
        Holds m' (accepted ++ (node ∷ [])) (handed ++ out)
  unfolding admits push_back take_buffer drive drive_front
  push_back-Holds byte_cap [] free bytes is_open true accepted handed node h fits =
      absurd (ground (arith, h.busy))
  push_back-Holds byte_cap [] free bytes is_open false accepted handed node h fits =
      let (sum, le) = admitted_sum byte_cap bytes (length node.bytes) h.word fits in
      record {
        counted = omega (arith, sum, h.counted);
        capped = omega (arith, sum, le);
        word = h.word;
        busy = refl;
        in_order = λ o. first_in_order accepted handed node (h.in_order o);
      }
  push_back-Holds byte_cap (n ∷ ns) free bytes is_open false accepted handed node h fits =
      absurd (ground (arith, h.busy))
  push_back-Holds byte_cap (n ∷ ns) free bytes is_open true accepted handed node h fits =
      let (sum, le) = admitted_sum byte_cap bytes (length node.bytes) h.word fits in
      record {
        counted = omega (arith, sum, h.counted, total-append ns node);
        capped = omega (arith, sum, le);
        word = h.word;
        busy = refl;
        in_order = λ o. later_in_order accepted handed ns node (h.in_order o);
      }

  -- The front is done, and the next one is handed over.
  pub complete_front-Holds :
      (byte_cap : ℕ) (queue : List (Node E)) (free bytes : ℕ) (is_open sending : Bool)
      (accepted handed : List (Node E))
      → Holds (made byte_cap queue free bytes is_open sending) accepted handed
      → sending ≡ true
      → (r : SendQueue E × List (Node E)) × (complete_front queue
            (made byte_cap queue free bytes is_open sending)
          ≡ some r)
        × Holds r.0 accepted (handed ++ r.1)
  unfolding complete_front drive drive_front recycle_buffer
  complete_front-Holds byte_cap [] free bytes is_open sending accepted handed h busy =
      absurd (ground (arith, h.busy, busy))
  complete_front-Holds byte_cap (n ∷ []) free bytes is_open sending accepted handed h busy =
      let back = given_back bytes (length n.bytes) 0 (omega (arith, h.word, h.capped)) h.counted in
      (
        _,
        refl,
        record {
          counted = back;
          capped = omega (arith, back);
          word = h.word;
          busy = refl;
          in_order = λ o. h.in_order o ∙ sym (append-nil (handed ++ []));
        },
      )
  complete_front-Holds byte_cap (n ∷ n' ∷ ns) free bytes is_open sending accepted handed h busy =
      let back =
        given_back bytes (length n.bytes) (total (n' ∷ ns)) (omega (arith, h.word, h.capped))
          h.counted in
      (
        _,
        refl,
        record {
          counted = back;
          capped = omega (arith, back, h.counted, h.capped);
          word = h.word;
          busy = refl;
          in_order = λ o. h.in_order o ∙ sym (append_assoc handed (n' ∷ []) ns);
        },
      )
