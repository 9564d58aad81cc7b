-- ===== src/Datagram/UdpReliableArq/Runs.antt =====
-- Runs of the sender: submissions, acknowledgements, waits that end, and the tear-down.
use plexus.Common.{ℕ, ◌%◌, ◌≤◌, ◌≡◌, refl, sym, ap, ◌∙◌, arith}
use plexus.Common.{if_elim, leb}
use plexus.Common.{append-nil, append_assoc, get_or-replicate}
use plexus.Common.{
  List, [], ◌∷◌, ◌++◌, length-append, All, All-append, get_or-append, length-replicate,
}
use plexus.Datagram.UdpReliableArq.{
  UdpReliableArq, UdpArqConfig, Effect, empty_slot, in_flight, udp_reliable_arq,
}
use plexus.Datagram.UdpReliableArq.Window.{Segment, no_segment, Sending}
use plexus.Datagram.UdpReliableArq.Slide.{in_flight-Sending}
use mathlib.Core.Path.{subst}
use plexus.Datagram.UdpReliableArq.Events.{Event, step, submissions, IsOf, IsPrompt}
use plexus.Datagram.UdpReliableArq.Events.Kept.{Stepped, Stayed-Stepped, stays}
use plexus.Datagram.UdpReliableArq.Events.Changes.{step-Stepped}
use plexus.Datagram.UdpReliableArq.Events.{submitted, acked, fired, late, cancelled}

abbrev pub run : List Event → UdpReliableArq → UdpReliableArq × List Effect
run [] m = (m, [])
run (e ∷ es) m = let (m', now) = step e m in let (m'', later) = run es m' in (m'', now ++ later)

abbrev pub all_submissions : List Event → UdpReliableArq → List Segment → List Segment
all_submissions [] m sent = sent
all_submissions (e ∷ es) m sent = all_submissions es (step e m).0 (submissions e m sent)

abbrev pub ArePrompt : List Event → UdpReliableArq → Type 0
ArePrompt [] m = Unit
ArePrompt (e ∷ es) m = IsPrompt e m × ArePrompt es (step e m).0

-- What is known of a transmission stays true when more is submitted.
IsOf-append : (sent more : List Segment) (e : Effect) → IsOf sent e → IsOf (sent ++ more) e
IsOf-append sent more (Effect.transmitted seq fragmented bytes) (k, l, s, c) =
    (k, omega (arith, length-append sent more), s, get_or-append sent more k no_segment l ∙ c)
IsOf-append sent more (Effect.armed seq delay) i = tt
IsOf-append sent more (Effect.ack_sent ack) i = tt
IsOf-append sent more Effect.exhausted i = tt
IsOf-append sent more Effect.window_advanced i = tt

each_IsOf-append :
    (sent more : List Segment) (es : List Effect)
    → All (IsOf sent) es
    → All (IsOf (sent ++ more)) es
each_IsOf-append sent more [] i = tt
each_IsOf-append sent more (e ∷ es) (i, is) =
    (IsOf-append sent more e i, each_IsOf-append sent more es is)

submissions-prefix :
    (e : Event) (m : UdpReliableArq) (sent : List Segment)
    → (more : List Segment) × (submissions e m sent ≡ sent ++ more)
submissions-prefix (submitted now fragmented payload) m sent =
    if_elim (λ t. (more : List Segment) × (t ≡ sent ++ more)) (leb m.window (in_flight m)) _ _
      (λ e. ([], sym (append-nil sent))) (λ e. ((fragmented, payload) ∷ [], refl))
submissions-prefix (acked now ack) m sent = ([], sym (append-nil sent))
submissions-prefix (fired n) m sent = ([], sym (append-nil sent))
submissions-prefix (late seq) m sent = ([], sym (append-nil sent))
submissions-prefix cancelled m sent = ([], sym (append-nil sent))

all_submissions-prefix :
    (es : List Event) (m : UdpReliableArq) (sent : List Segment)
    → (more : List Segment) × (all_submissions es m sent ≡ sent ++ more)
all_submissions-prefix [] m sent = ([], sym (append-nil sent))
all_submissions-prefix (e ∷ es) m sent =
    let (front, p) = submissions-prefix e m sent in
    let (back, q) = all_submissions-prefix es (step e m).0 (submissions e m sent) in
    (front ++ back, q ∙ ap (λ t. t ++ back) p ∙ append_assoc sent front back)

pub run-Stepped :
    (es : List Event) (m : UdpReliableArq) (b : ℕ) (sent : List Segment)
    → ArePrompt es m
    → Sending m b sent
    → Stepped m b (all_submissions es m sent) (run es m)
run-Stepped [] m b sent _ h = Stayed-Stepped m b sent (m, []) (stays m b sent h)
run-Stepped (e ∷ es) m b sent (prompt, prompts) h =
    let s = step-Stepped e m b sent prompt h in
    let sent' = submissions e m sent in
    let r = run-Stepped es (step e m).0 s.b' sent' prompts s.sending in
    let (more, p) = all_submissions-prefix es (step e m).0 sent' in
    let all = all_submissions es (step e m).0 sent' in
    record {
      b' = r.b';
      forward = omega (arith, s.forward, r.forward);
      sending = r.sending;
      same_window = r.same_window ∙ s.same_window;
      faithful =
          All-append (IsOf all) (step e m).1 (run es (step e m).0).1
            (subst (λ t. All (IsOf t) (step e m).1) (sym p)
              (each_IsOf-append sent' more (step e m).1 s.faithful))
            r.faithful;
    }

-- A new sender has an empty window.
pub new-Sending :
    (cfg : UdpArqConfig)
    → 65536 % (udp_reliable_arq cfg 0).window ≡ 0
    → Sending (udp_reliable_arq cfg 0) 0 []
unfolding udp_reliable_arq
new-Sending cfg d =
    let w = (udp_reliable_arq cfg 0).window in
    record {
      positive = ground arith;
      small = ground arith;
      divides = d;
      size = length-replicate w empty_slot;
      base_is = refl;
      next_is = refl;
      order = omega arith;
      room = omega arith;
      serves = λ k p q. rw (get_or-replicate w (k % w) empty_slot) (record {
        known = λ e. absurd (ground (arith, e));
        content = λ e. absurd (ground (arith, e));
        waits = λ t e. absurd (ground (arith, e));
      });
    }

-- A run from a new sender that counts from 0, and whose window divides 65536, in which the handler of
-- a wait that was cancelled or replaced never runs on a slot that is outstanding again, keeps the
-- flight within the window, and transmits, at first and again, nothing but the segments that were
-- submitted, each under its own number, whatever is acknowledged and whichever waits end.
pub run-IsOf :
    (cfg : UdpArqConfig) (es : List Event)
    → 65536 % (udp_reliable_arq cfg 0).window ≡ 0
    → ArePrompt es (udp_reliable_arq cfg 0)
    → (in_flight (run es (udp_reliable_arq cfg 0)).0 ≤ (udp_reliable_arq cfg 0).window)
      × All
          (IsOf (all_submissions es (udp_reliable_arq cfg 0) []))
          (run es (udp_reliable_arq cfg 0)).1
run-IsOf cfg es d prompt =
    let m = udp_reliable_arq cfg 0 in
    let r = run-Stepped es m 0 [] prompt (new-Sending cfg d) in
    let sent = all_submissions es m [] in
    (
      omega (
        arith,
        in_flight-Sending (run es m).0 r.b' sent r.sending,
        r.sending.room,
        r.same_window,
      ),
      r.faithful,
    )
