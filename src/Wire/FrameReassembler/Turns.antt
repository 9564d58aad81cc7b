-- ===== src/Wire/FrameReassembler/Turns.antt =====
-- The turns of the reassembler's loop against the parse of what is unread.
use plexus.Common.{
  ℕ, zero, suc, ◌+◌, ◌-◌, ◌≤◌, ◌<◌, false, ◌≡◌, refl, sym, ap, ◌∙◌, ◌⊎◌, arith, inl, inr,
}
use plexus.Common.{none, some, Option-cases, Bool-cases, List, length, drop, ltb, All}
use plexus.Common.{length-drop, drop-drop, All-drop}
use mathlib.Core.Path.{subst}
use plexus.Wire.ByteOrder.{Endian, IsByte}
use plexus.Wire.Frame.{FrameHeader, IsFrameHeader, header_size}
use plexus.Wire.Frame.Codec.{decode_header}
use plexus.Wire.Frame.RoundTrip.{decode_header-Framed}
use plexus.Wire.FrameReassembler.{
  FrameReassembler, CompleteFrame, State, reading_header, reading_payload, invalid_magic,
}
use plexus.Wire.FrameReassembler.{unread, payload_turn, header_turn, turn_in, turn}
use plexus.Wire.FrameReassembler.Stream.{waiting, after_header, scan, parse}
use plexus.Wire.FrameReassembler.Payload.{
  IsPending, IsSound, Runs, fails, past_payload, payload-Runs, pending_in, pending_of, stops,
}

pub length-unread : (m : FrameReassembler) → length (unread m) ≡ length m.buffer - m.consumed
unfolding unread
length-unread m = length-drop m.consumed m.buffer

pub unread-IsByte : (m : FrameReassembler) → IsSound m → All IsByte (unread m)
unfolding unread
unread-IsByte m v = All-drop IsByte m.consumed m.buffer v.are_bytes

unread-past_payload :
    (m : FrameReassembler) → unread (past_payload m) ≡ drop m.pending_header.payload_len (unread m)
unfolding unread
unread-past_payload m = sym (drop-drop m.pending_header.payload_len m.consumed m.buffer)

past_payload-IsSound :
    (m : FrameReassembler)
    → IsSound m
    → m.pending_header.payload_len ≤ length (unread m)
    → IsSound (past_payload m)
unfolding pending_of
past_payload-IsSound m v h = record {
  inside = omega (arith, length-unread m, v.inside);
  are_bytes = v.are_bytes;
  pending_fits = tt;
}

-- The state behind a header.
abbrev past_header : FrameReassembler → FrameHeader → FrameReassembler
past_header m h = record m {
  pending_header = h;
  consumed = m.consumed + header_size;
  state = reading_payload;
}

unread-past_header :
    (m : FrameReassembler) (h : FrameHeader)
    → unread (past_header m h) ≡ drop header_size (unread m)
unfolding unread
unread-past_header m h = sym (drop-drop header_size m.consumed m.buffer)

past_header-IsSound :
    (m : FrameReassembler) (h : FrameHeader)
    → IsSound m
    → header_size ≤ length (unread m)
    → IsFrameHeader h
    → IsSound (past_header m h)
unfolding pending_of
past_header-IsSound m h v n valid = record {
  inside = omega (arith, length-unread m, v.inside);
  are_bytes = v.are_bytes;
  pending_fits = valid;
}

header-Runs :
    (fuel n : ℕ) (host : Endian) (m : FrameReassembler) (frames : List CompleteFrame)
    → IsSound m
    → m.state ≡ reading_header
    → length (unread m) < n
    → length (unread m) < fuel
    → Runs fuel host m frames (scan n host m.max_payload_size (unread m))
unfolding scan
header-Runs zero n host m frames v s hn hf = absurd (omega arith)
header-Runs (suc fuel) zero host m frames v s hn hf = absurd (omega arith)
header-Runs (suc fuel) (suc n) host m frames v s hn hf =
    elim (Bool-cases (ltb (length (unread m)) header_size)) [
      | inl short ↦ rw short (
          subst (λ q. Runs (suc fuel) host m frames (waiting q (unread m))) no_header_yet
            (stops fuel host m m frames (is_header ∙ unfold header_turn in rw short) v refl refl))
      | inr room ↦ elim (Option-cases (decode_header host (unread m))) [
        | inl bad ↦
            rw (room, bad)
              (fails fuel host m frames invalid_magic
                (is_header ∙ unfold header_turn in rw (room, bad)))
        | inr (h, good) ↦
            let valid = (decode_header-Framed host (unread m) h unread_bytes good).valid in
            let v1 = past_header-IsSound m h v (ground arith) valid in
            let m1 = past_header m h in
            let limit = m.max_payload_size in
            rw (room, good)
              (subst
                (λ b.
                  Runs (suc fuel) host m frames
                    (after_header limit h b (scan n host limit (drop h.payload_len b))))
                (unread-past_header m h)
                (payload-Runs fuel host m m1 frames _
                  (is_header ∙ unfold header_turn in rw (room, good)) v1 refl valid refl refl
                  (λ enough frames'.
                    subst (λ b. Runs fuel host (past_payload m1) frames' (scan n host limit b))
                      (unread-past_payload m1)
                      (header-Runs fuel n host (past_payload m1) frames'
                        (past_payload-IsSound m1 v1 enough) refl (omega (arith, shorter h room))
                        (omega (arith, shorter h room))))))
      ]
    ]
  where
    is_header : turn host m ≡ header_turn host m
    is_header = unfold turn in ap (λ s. turn_in s host m) s

    no_header_yet : pending_of m ≡ none
    no_header_yet = unfold pending_of in ap (λ s. pending_in s m.pending_header) s

    unread_bytes : All IsByte (unread m)
    unread_bytes = unread-IsByte m v

    shorter :
        (h : FrameHeader)
        → ltb (length (unread m)) header_size ≡ false
        → length (unread (past_payload (past_header m h))) < length (unread m)
    shorter h room = ground (arith, length-unread m, length-unread (past_payload (past_header m h)))

header_pending : (m : FrameReassembler) → m.state ≡ reading_header → none ≡ pending_of m
unfolding pending_of
header_pending m s = sym (ap (λ s. pending_in s m.pending_header) s)

payload_pending :
    (m : FrameReassembler) → m.state ≡ reading_payload → some m.pending_header ≡ pending_of m
unfolding pending_of
payload_pending m s = sym (ap (λ s. pending_in s m.pending_header) s)

payload_turn_first :
    (host : Endian) (m : FrameReassembler)
    → m.state ≡ reading_payload
    → turn host m ≡ payload_turn host m
unfolding turn
payload_turn_first host m s = ap (λ s. turn_in s host m) s

State-cases : (s : State) → (s ≡ reading_header) ⊎ (s ≡ reading_payload)
State-cases reading_header = inl refl
State-cases reading_payload = inr refl

-- From any sound state the loop ends, and computes the parse of the unread bytes.
pub feed_loop-parse :
    (fuel n : ℕ) (host : Endian) (m : FrameReassembler) (frames : List CompleteFrame)
    → IsSound m
    → length (unread m) < n
    → length (unread m) + 1 < fuel
    → Runs fuel host m frames (parse n host m.max_payload_size (pending_of m) (unread m))
unfolding parse
feed_loop-parse zero n host m frames v hn hf = absurd (omega arith)
feed_loop-parse (suc fuel) n host m frames v hn hf = elim (State-cases m.state) [
  | inl s ↦
      subst (λ q. Runs (suc fuel) host m frames (parse n host m.max_payload_size q (unread m)))
        (header_pending m s) (header-Runs (suc fuel) n host m frames v s hn (omega arith))
  | inr s ↦
      subst (λ q. Runs (suc fuel) host m frames (parse n host m.max_payload_size q (unread m)))
        (payload_pending m s)
        (payload-Runs fuel host m m frames _ (payload_turn_first host m s) v s
          (subst IsPending (sym (payload_pending m s)) v.pending_fits) refl refl
          (λ enough frames'.
            subst (λ b. Runs fuel host (past_payload m) frames' (scan n host m.max_payload_size b))
              (unread-past_payload m)
              (header-Runs fuel n host (past_payload m) frames' (past_payload-IsSound m v enough)
                refl (omega (arith, length-unread m, length-unread (past_payload m)))
                (omega (arith, length-unread m, length-unread (past_payload m))))))
]
