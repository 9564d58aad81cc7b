-- ===== src/Datagram/SendQueue/Fifo.antt =====
-- What is accepted is handed to the transport once, in order, one at a time.
use plexus.Common.{ℕ, ◌^◌, ◌≤◌, ◌<◌, ◌≡◌, refl, ap, ◌∙◌, arith, Bool, true, not}
use plexus.Common.{
  if_elim, if◌then◌else◌, Bool-cases, inl, inr, ◌>>=◌, some, List, [], ◌∷◌, ◌++◌, length,
  append-nil,
}
use plexus.Datagram.SendQueue.{
  Node, SendQueue, send_queue, admits, enqueue, close, complete_front, complete,
}
use mathlib.Core.Path.{subst}
use plexus.Datagram.SendQueue.Front.{
  enqueued, completed, closed, After, AreDue, Event, Holds, IsDue, Sound, State, after,
  complete_front-Holds, is_busy, push_back-Holds, run, step, total, waiting,
}

module _ {ℓ} {E : Type ℓ} where
  Sound-same :
      (s : State E) (m : SendQueue E) → Holds m s.accepted s.handed → Sound (after s [] (m, []))
  Sound-same s m h = rw (append-nil s.accepted, append-nil s.handed) h

  enqueued-Sound :
      (s : State E) (bytes : List ℕ) (dest : E)
      → Sound s
      → (s' : State E) × (step (enqueued bytes dest) s ≡ some s') × Sound s'
  unfolding enqueue
  enqueued-Sound s bytes dest h =
      let node : Node E = record { bytes = bytes; dest = dest } in
      let m = s.queue in
      let pushed =
        push_back-Holds m.byte_cap m.queue m.free_buffers m.bytes m.is_open m.sending s.accepted
          s.handed node h in
      (
        _,
        refl,
        if_elim
            (λ (r : SendQueue E × Bool × List (Node E)).
              Holds r.0 (s.accepted ++ (if r.1 then node ∷ [] else [])) (s.handed ++ r.2))
            (not (admits (length bytes) m)) _ _ (λ refused. Sound-same s m h)
            (λ fits. pushed (ground (arith, fits))),
      )

  complete_lem : (m : SendQueue E) → m.is_open ≡ true → complete m ≡ complete_front m.queue m
  unfolding complete
  complete_lem m is_open =
      ap (λ b. if not b then some (m, []) else complete_front m.queue m) is_open

  -- A completion of an open queue that is busy, and one after the close.
  completed-Sound :
      (s : State E)
      → Sound s
      → IsDue completed s
      → (s' : State E) × (step completed s ≡ some s') × Sound s'
  unfolding complete
  completed-Sound s h due = elim (Bool-cases s.queue.is_open) [
    | inr shut ↦ (after s [] (s.queue, []), rw shut refl, Sound-same s s.queue h)
    | inl is_open ↦
        let m = s.queue in
        let busy : m.sending ≡ true = elim due [
          | inl b ↦ b
          | inr shut ↦ absurd (ground (arith, is_open, shut))
        ] in
        let (r, is, after_front) =
          complete_front-Holds m.byte_cap m.queue m.free_buffers m.bytes m.is_open m.sending
            s.accepted s.handed h busy in
        (
          after s [] r,
          ap (λ o. o >>= λ t. some (after s [] t)) (complete_lem m is_open ∙ is),
          rw (append-nil s.accepted) after_front,
        )
  ]

  closed-Sound : (s : State E) → Sound s → Sound (after s [] (close s.queue, []))
  unfolding close
  closed-Sound s h = record {
    counted = refl;
    capped = omega arith;
    word = h.word;
    busy = refl;
    in_order = λ o. absurd (ground (arith, o));
  }

  step-Sound :
      (e : Event E) (s : State E)
      → Sound s
      → IsDue e s
      → (s' : State E) × (step e s ≡ some s') × Sound s'
  step-Sound (enqueued bytes dest) s h due = enqueued-Sound s bytes dest h
  step-Sound completed s h due = completed-Sound s h due
  step-Sound closed s h due = (after s [] (close s.queue, []), refl, closed-Sound s h)

  run-Sound :
      (es : List (Event E)) (s : State E)
      → Sound s
      → AreDue es s
      → (s' : State E) × (run es s ≡ some s') × Sound s'
  unfolding AreDue
  run-Sound [] s h due = (s, refl, h)
  run-Sound (e ∷ es) s h (d, ds) =
      let (s1, is, h1) = step-Sound e s h d in
      let (s2, runs, h2) = run-Sound es s1 h1 (subst (After (AreDue es)) is ds) in
      (s2, rw (is, runs) refl, h2)

  abbrev pub new_state : ℕ → State E
  new_state byte_cap = record { queue = send_queue byte_cap; accepted = []; handed = [] }

  -- A new queue whose cap is a word, over any sequence of frames, completions and closes, where a
  -- completion comes for a frame that is with the transport or after the close, is never in want of a
  -- frame; it counts the bytes that it holds, within the cap; it is sending exactly while it holds
  -- one; and until the close what it has accepted is what it has handed over, in order and each
  -- once, and behind it what waits.
  pub run-fifo :
      (byte_cap : ℕ) (es : List (Event E))
      → byte_cap < 2 ^ 64
      → AreDue es (new_state byte_cap)
      → (s : State E) × (run es (new_state byte_cap) ≡ some s)
        × (s.queue.bytes ≡ total s.queue.queue)
        × (s.queue.bytes ≤ s.queue.byte_cap)
        × (s.queue.sending ≡ is_busy s.queue.queue)
        × (s.queue.is_open ≡ true → s.accepted ≡ s.handed ++ waiting s.queue)
  run-fifo byte_cap es word due =
      let new : Sound (new_state byte_cap) =
        unfold send_queue in
        record {
          counted = refl;
          capped = omega arith;
          word = word;
          busy = refl;
          in_order = λ o. refl;
        } in
      let (s, runs, h) = run-Sound es (new_state byte_cap) new due in
      (s, runs, h.counted, h.capped, h.busy, h.in_order)
