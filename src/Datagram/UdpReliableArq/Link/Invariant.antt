-- ===== src/Datagram/UdpReliableArq/Link/Invariant.antt =====
-- What holds of a link: the two windows by their whole numbers, and what the frames and the
-- acknowledgements on their way say.
use plexus.Common.{
  ℕ, ◌+◌, ◌%◌, ◌≤◌, ◌<◌, ◌≡◌, ◌≢◌, sym, ap, ◌∙◌, arith, Bool, true, false, some, inl, inr,
}
use plexus.Common.{
  ◌&&◌, Bool-cases, if◌then◌else◌, leb, ltb, List, [], ◌∷◌, length, get_or, All, elem,
}
use plexus.Datagram.UdpReliableArq.{UdpReliableArq, Effect, send_ack}
use plexus.Datagram.UdpReliableArq.Window.{Segment, no_segment, Sending}
use plexus.Datagram.UdpReliableArq.SendAck.{send_ack-buffered_at}
use plexus.Datagram.UdpReorderBuffer.{UdpReorderBuffer, cumulative}
use plexus.Datagram.UdpReorderBuffer.InOrder.{Datagram, run, Holds}
use plexus.Datagram.UdpReorderBuffer.FirstGap.{IsFirstGap, known}
use plexus.Wire.UdpAck.{UdpAck, hole_received}
use plexus.Datagram.UdpReliableArq.{slot_at}
use plexus.Datagram.UdpReorderBuffer.{buffered_at}
use plexus.Datagram.UdpReorderBuffer.InOrder.{ahead}
use mathlib.Core.List.{Memᴰ}
use mathlib.Core.Path.{subst}
use plexus.Datagram.UdpReliableArq.Link.{Link, Frame, newest, frames_of}
use plexus.Datagram.UdpReliableArq.Events.{IsFrom}

-- An acknowledgement of a receiver that waited for `edge`, and whose holes name what it had.
pub record IsEdge (e : ℕ) (seen : List ℕ) (x : ℕ × UdpAck) : Type 0 where
  pub reached : x.0 ≤ e
  pub cumulates : (x.1.cumulative + 1) % 65536 ≡ x.0 % 65536
  pub named : (j : ℕ) → hole_received x.1 j ≡ true → elem (x.0 + (j + 1)) seen ≡ true

-- A frame that was sent of the stream's segment of its number.
pub record IsFrame (stream : ℕ → Datagram) (n : ℕ) (x : Frame) : Type 0 where
  pub below : x.number < n
  pub numbered : x.seq ≡ x.number % 65536
  pub content : stream x.number ≡ (x.fragmented, x.bytes)

pub record Inv (stream : ℕ → Datagram) (l : Link) : Type 0 where
  pub b : ℕ
  pub e : ℕ
  pub seen : List ℕ
  pub sending : Sending l.sender b l.sent
  pub holds : Holds stream l.receiver.recv e seen
  pub first : IsFirstGap seen e
  pub known : (x : ℕ) → elem x seen ≡ true → x < length l.sent
  pub behind : b ≤ e
  pub ahead : e ≤ length l.sent
  pub wide : l.sender.window ≤ l.receiver.recv.window
  pub small : l.receiver.recv.window ≤ 32768
  pub agree : (k : ℕ) → k < length l.sent → get_or l.sent k no_segment ≡ stream k
  pub held :
      (k : ℕ)
      → b ≤ k
      → k < length l.sent
      → (slot_at l.sender (k % 65536)).outstanding ≡ false
      → elem k seen ≡ true
  pub flying : All (IsFrame stream (length l.sent)) l.air
  pub edges : All (IsEdge e seen) l.acks
  pub in_order : l.delivered ≡ run stream 0 e

pub some_same {ℓ} : {A : Type ℓ} {x y : A} → some x ≡ some y → x ≡ y
some_same e = cc

pub All-Memᴰ {ℓ κ} :
    {A : Type ℓ} (P : A → Type κ) {x : A} (xs : List A) → Memᴰ x xs → All P xs → P x
All-Memᴰ P [] m h = elim m [ ]
All-Memᴰ P (y ∷ xs) (Memᴰ.head e) (p, ps) = subst P (sym e) p
All-Memᴰ P (y ∷ xs) (Memᴰ.tail m) (p, ps) = All-Memᴰ P xs m ps

pub IsFrame-later :
    (stream : ℕ → Datagram) (n n' : ℕ) (xs : List Frame)
    → n ≤ n'
    → All (IsFrame stream n) xs
    → All (IsFrame stream n') xs
IsFrame-later stream n n' [] p h = tt
IsFrame-later stream n n' (x ∷ xs) p (q, h) = (
  record { below = omega (arith, q.below, p); numbered = q.numbered; content = q.content },
  IsFrame-later stream n n' xs p h,
)

-- The newest number of a segment in the window is its own.
newest_lem : (b n w k : ℕ) → b ≤ k → k < n → n ≤ b + w → w ≤ 32768 → newest n (k % 65536) ≡ k
newest_lem b n w k p q room small = omega arith

-- What is transmitted out of the window are frames of the stream.
pub frames_of-IsFrame :
    (stream : ℕ → Datagram) (sent : List Segment) (b w : ℕ)
    → ((k : ℕ) → k < length sent → get_or sent k no_segment ≡ stream k)
    → length sent ≤ b + w
    → w ≤ 32768
    → (es : List Effect) → All (IsFrom b sent) es
    → All (IsFrame stream (length sent)) (frames_of (length sent) es)
frames_of-IsFrame stream sent b w agree room small [] i = tt
frames_of-IsFrame stream sent b w agree room small (Effect.transmitted seq fragmented bytes ∷ es)
      ((k, p, q, is, content), i) =
    let n = length sent in
    let own : newest n seq ≡ k = ap (newest n) is ∙ newest_lem b n w k p q room small in
    (
      record {
        below = omega (arith, own, q);
        numbered = is ∙ ap (λ t. t % 65536) (sym own);
        content = ap stream own ∙ sym (agree k q) ∙ content;
      },
      frames_of-IsFrame stream sent b w agree room small es i,
    )
frames_of-IsFrame stream sent b w agree room small (Effect.ack_sent a ∷ es) (x, i) =
    frames_of-IsFrame stream sent b w agree room small es i
frames_of-IsFrame stream sent b w agree room small (Effect.armed seq delay ∷ es) (x, i) =
    frames_of-IsFrame stream sent b w agree room small es i
frames_of-IsFrame stream sent b w agree room small (Effect.exhausted ∷ es) (x, i) =
    frames_of-IsFrame stream sent b w agree room small es i
frames_of-IsFrame stream sent b w agree room small (Effect.window_advanced ∷ es) (x, i) =
    frames_of-IsFrame stream sent b w agree room small es i

pub IsEdge-later :
    (e e' k : ℕ) (seen : List ℕ) (xs : List (ℕ × UdpAck))
    → e ≤ e'
    → All (IsEdge e seen) xs
    → All (IsEdge e' (k ∷ seen)) xs
IsEdge-later e e' k seen [] p h = tt
IsEdge-later e e' k seen (x ∷ xs) p (q, h) = (
  record {
    reached = omega (arith, q.reached, p);
    cumulates = q.cumulates;
    named = λ j r. known k (x.0 + (j + 1)) seen (q.named j r);
  },
  IsEdge-later e e' k seen xs p h,
)

-- What is held out of order has arrived.
buffered_at-elem :
    (stream : ℕ → Datagram) (m : UdpReorderBuffer) (e : ℕ) (seen : List ℕ) (hole : ℕ)
    → Holds stream m e seen
    → buffered_at m hole ≡ true
    → elem (e + hole) seen ≡ true
unfolding buffered_at
buffered_at-elem stream m e seen hole h got = elim (Bool-cases (leb m.window hole)) [
  | inl far ↦ absurd (ground (arith, far, got))
  | inr near ↦ sym (h.kept hole (ground (arith, near))) ∙ inside (leb m.window hole) near got
]
  where
    inside :
        (b : Bool)
        → b ≡ false
        → (if b then false else (ahead m hole).present) ≡ true
        → (ahead m hole).present ≡ true
    inside true e g = absurd (ground (arith, e))
    inside false e g = g

-- What arrived is held, within the window, and nothing else is.
pub elem-buffered_at :
    (stream : ℕ → Datagram) (m : UdpReorderBuffer) (e : ℕ) (seen : List ℕ) (hole : ℕ)
    → Holds stream m e seen
    → hole < m.window
    → elem (e + hole) seen ≡ true
    → buffered_at m hole ≡ true
unfolding buffered_at
elem-buffered_at stream m e seen hole h near got =
    let far : leb m.window hole ≡ false = ground (arith, near) in rw far (h.kept hole near ∙ got)

pub gap-buffered_at :
    (stream : ℕ → Datagram) (m : UdpReorderBuffer) (e : ℕ) (seen : List ℕ) (hole : ℕ)
    → Holds stream m e seen
    → elem (e + hole) seen ≡ false
    → buffered_at m hole ≡ false
gap-buffered_at stream m e seen hole h gap = elim (Bool-cases (buffered_at m hole)) [
  | inl got ↦ absurd (true_not_false (sym (buffered_at-elem stream m e seen hole h got) ∙ gap))
  | inr free ↦ free
]
  where
    true_not_false : true ≢ false
    true_not_false e = ground (arith, e)

-- What is sent in answer to an arrival.
pub answer-IsEdge :
    (stream : ℕ → Datagram) (m : UdpReliableArq) (e : ℕ) (seen : List ℕ)
    → Holds stream m.recv e seen
    → (ack : UdpAck) × (send_ack m ≡ Effect.ack_sent ack) × IsEdge e seen (e, ack)
unfolding cumulative
answer-IsEdge stream m e seen h =
    let (ack, is, edge, _) = send_ack-buffered_at m 0 in
    (
      ack,
      is,
      record {
        reached = omega arith;
        cumulates = omega (arith, edge, h.next);
        named = λ j r.
            let (ack', is', _, hole) = send_ack-buffered_at m j in
            let same : ack ≡ ack' = same_ack (sym is ∙ is') in
            let got : (ltb j 256 && buffered_at m.recv (j + 1)) ≡ true =
              sym hole ∙ ap (λ a. hole_received a j) (sym same) ∙ r in
            buffered_at-elem stream m.recv e seen (j + 1) h (ground (arith, got));
      },
    )
  where
    same_ack : {a a' : UdpAck} → Effect.ack_sent a ≡ Effect.ack_sent a' → a ≡ a'
    same_ack e = cc
