-- ===== src/Datagram/UdpReliableArq/Retries.antt =====
-- A segment that is never acknowledged.
use plexus.Common.{
  ℕ, zero, suc, ◌+◌, ◌%◌, ◌<◌, ◌≡◌, refl, ap, ◌∙◌, arith, Bool, true, false, none, some,
}
use plexus.Common.{
  leb, if◌then◌else◌, List, [], ◌∷◌, ◌++◌, length, length-set, get_or-set_self, replicate,
}
use plexus.Datagram.UdpReliableArq.{
  Slot, UdpReliableArq, Effect, empty_slot, slot_at, put_slot, transmit,
}
use plexus.Datagram.UdpReliableArq.{arm, give_up, on_rto, expired, ended, fire}
use plexus.Datagram.UdpReliableArq.Runs.{run}
use plexus.Datagram.UdpReliableArq.Events.{Event}
use plexus.Datagram.UdpRtoEstimator.{UdpRtoEstimator, backed_off}
use native.Mathlib.Nat.{mod-lt}

-- The segment `seq` is outstanding, was sent again `count` times, and its wait is pending.
pub record Awaits (m : UdpReliableArq) (seq count : ℕ) (fragmented : Bool) (bytes : List ℕ)
    : Type 0 where
  pub positive : 0 < m.window
  pub size : length m.slots ≡ m.window
  pub alive : m.dead ≡ false
  pub is_out : (slot_at m seq).outstanding ≡ true
  pub pending : (slot_at m seq).timer ≡ some seq
  pub counted : (slot_at m seq).retransmits ≡ count
  pub kind : (slot_at m seq).fragmented ≡ fragmented
  pub content : (slot_at m seq).bytes ≡ bytes

-- What the waits of `n` retransmissions and of the end do, after `count` of them.
abbrev pub tries : ℕ → Bool → List ℕ → UdpRtoEstimator → ℕ → ℕ → List Effect
tries seq fragmented bytes rto count zero = Effect.exhausted ∷ []
tries seq fragmented bytes rto count (suc n) =
    Effect.transmitted seq fragmented bytes
    ∷ Effect.armed seq (backed_off (count + 1) rto)
    ∷ tries seq fragmented bytes rto (count + 1) n

abbrev again : Slot → Slot
again s = record s { retransmits = s.retransmits + 1; retransmitted = true }

module _ (seq : ℕ) (m : UdpReliableArq) where
  on_rto_retries :
      (slot_at m seq).outstanding ≡ true
      → leb m.max_retransmit (slot_at m seq).retransmits ≡ false
      → on_rto seq m ≡ (
        (arm seq (put_slot seq (again (slot_at m seq)) m)).0,
        transmit seq (again (slot_at m seq))
            ∷ (arm seq (put_slot seq (again (slot_at m seq)) m)).1
            ∷ [],
      )
  unfolding on_rto
  on_rto_retries o e = rw (o, e) refl

  on_rto_last :
      (slot_at m seq).outstanding ≡ true
      → leb m.max_retransmit (slot_at m seq).retransmits ≡ true
      → on_rto seq m ≡ give_up m
  unfolding on_rto
  on_rto_last o e = rw (o, e) refl

  slot_at-put :
      (s : Slot) → 0 < m.window → length m.slots ≡ m.window → slot_at (put_slot seq s m) seq ≡ s
  slot_at-put s pos size =
      let l = mod-lt seq pos in
      get_or-set_self m.slots (seq % m.window) s empty_slot (omega (arith, size))

abbrev idle : ℕ → UdpReliableArq → UdpReliableArq
idle seq m = put_slot seq (record (slot_at m seq) { timer = none }) m

fire-on_rto :
    (seq count : ℕ) (m : UdpReliableArq) (fragmented : Bool) (bytes : List ℕ)
    → Awaits m seq count fragmented bytes
    → fire (seq % m.window) m ≡ on_rto seq (idle seq m)
unfolding fire ended expired
fire-on_rto seq count m fragmented bytes a = rw (a.pending, a.alive) refl

-- One wait that ends, where there may be another.
fire-Awaits :
    (seq count : ℕ) (m : UdpReliableArq) (fragmented : Bool) (bytes : List ℕ)
    → Awaits m seq count fragmented bytes
    → count < m.max_retransmit
    → (m' : UdpReliableArq) × (fire (seq % m.window) m ≡ (
      m',
      Effect.transmitted seq fragmented bytes
          ∷ Effect.armed seq (backed_off (count + 1) m.rto)
          ∷ [],
    ))
      × Awaits m' seq (count + 1) fragmented bytes
      × (m'.max_retransmit ≡ m.max_retransmit)
      × (m'.rto ≡ m.rto)
fire-Awaits seq count m fragmented bytes a l =
    let s = slot_at m seq in
    let i = idle seq m in
    let ati : slot_at i seq ≡ record s { timer = none } =
      slot_at-put seq m (record s { timer = none }) a.positive a.size in
    let size_i : length i.slots ≡ i.window =
      length-set m.slots (seq % m.window) (record s { timer = none }) ∙ a.size in
    let s1 = again (slot_at i seq) in
    let p = put_slot seq s1 i in
    let atp : slot_at p seq ≡ s1 = slot_at-put seq i s1 a.positive size_i in
    let size_p : length p.slots ≡ p.window = length-set i.slots (seq % m.window) s1 ∙ size_i in
    let s2 : Slot = record (slot_at p seq) { timer = some seq } in
    let atm : slot_at (put_slot seq s2 p) seq ≡ s2 = slot_at-put seq p s2 a.positive size_p in
    let out : (slot_at i seq).outstanding ≡ true = ap (λ t. t.outstanding) ati ∙ a.is_out in
    let number : (slot_at i seq).retransmits ≡ count = ap (λ t. t.retransmits) ati ∙ a.counted in
    let kind : (slot_at i seq).fragmented ≡ fragmented = ap (λ t. t.fragmented) ati ∙ a.kind in
    let content : (slot_at i seq).bytes ≡ bytes = ap (λ t. t.bytes) ati ∙ a.content in
    let more : leb m.max_retransmit (slot_at i seq).retransmits ≡ false =
      ground (arith, number, l) in
    let counted : (slot_at p seq).retransmits ≡ count + 1 =
      ap (λ t. t.retransmits) atp ∙ ap (λ (t : ℕ). t + 1) number in
    let made : (arm seq p).0 ≡ put_slot seq s2 p = unfold arm in refl in
    let armed : (arm seq p).1 ≡ Effect.armed seq (backed_off (count + 1) m.rto) =
      unfold arm in ap (λ c. Effect.armed seq (backed_off c m.rto)) counted in
    (
      put_slot seq s2 p,
      fire-on_rto seq count m fragmented bytes a
          ∙ on_rto_retries seq i out more
          ∙ ap (λ t. (t, transmit seq s1 ∷ (arm seq p).1 ∷ [])) made
          ∙ ap (λ e. (put_slot seq s2 p, transmit seq s1 ∷ e ∷ [])) armed
          ∙ ap
              (λ f. (
                put_slot seq s2 p,
                Effect.transmitted seq f (slot_at i seq).bytes
                    ∷ Effect.armed seq (backed_off (count + 1) m.rto)
                    ∷ [],
              ))
              kind
          ∙ ap
              (λ c. (
                put_slot seq s2 p,
                Effect.transmitted seq fragmented c
                    ∷ Effect.armed seq (backed_off (count + 1) m.rto)
                    ∷ [],
              ))
              content,
      record {
        positive = a.positive;
        size = length-set p.slots (seq % m.window) s2 ∙ size_p;
        alive = a.alive;
        is_out = ap (λ t. t.outstanding) (atm) ∙ ap (λ t. t.outstanding) atp ∙ out;
        pending = ap (λ t. t.timer) atm;
        counted = ap (λ t. t.retransmits) atm ∙ counted;
        kind = ap (λ t. t.fragmented) atm ∙ ap (λ t. t.fragmented) atp ∙ kind;
        content = ap (λ t. t.bytes) atm ∙ ap (λ t. t.bytes) atp ∙ content;
      },
      refl,
      refl,
    )

fire_last :
    (seq count : ℕ) (m : UdpReliableArq) (fragmented : Bool) (bytes : List ℕ)
    → Awaits m seq count fragmented bytes
    → count ≡ m.max_retransmit
    → (m' : UdpReliableArq) × (fire (seq % m.window) m ≡ (m', Effect.exhausted ∷ []))
      × (m'.dead ≡ true)
unfolding give_up
fire_last seq count m fragmented bytes a l =
    let s = slot_at m seq in
    let i = idle seq m in
    let ati : slot_at i seq ≡ record s { timer = none } =
      slot_at-put seq m (record s { timer = none }) a.positive a.size in
    let out : (slot_at i seq).outstanding ≡ true = ap (λ t. t.outstanding) ati ∙ a.is_out in
    let number : (slot_at i seq).retransmits ≡ count = ap (λ t. t.retransmits) ati ∙ a.counted in
    let last : leb m.max_retransmit (slot_at i seq).retransmits ≡ true =
      ground (arith, number, l) in
    let give : give_up i ≡ (record i { dead = true }, Effect.exhausted ∷ []) =
      ap (λ d. if d then (i, []) else (record i { dead = true }, Effect.exhausted ∷ [])) a.alive in
    (
      record i { dead = true },
      fire-on_rto seq count m fragmented bytes a ∙ on_rto_last seq i out last ∙ give,
      refl,
    )

-- A segment that waits in a sender that is not given up, and whose waits are all that happens, is
-- sent again under its number until it was sent again as often as the configuration allows, each
-- time with the backed-off time-out of that count, and the wait after that gives the connection up.
pub run-tries :
    (n seq count : ℕ) (m : UdpReliableArq) (fragmented : Bool) (bytes : List ℕ)
    → Awaits m seq count fragmented bytes
    → count + n ≡ m.max_retransmit
    → ((run (replicate (suc n) (Event.fired seq)) m).1 ≡ tries seq fragmented bytes m.rto count n)
      × ((run (replicate (suc n) (Event.fired seq)) m).0.dead ≡ true)
run-tries zero seq count m fragmented bytes a e =
    let (m', fired, dead) = fire_last seq count m fragmented bytes a (omega arith) in
    (ap (λ r. r.1 ++ []) fired, ap (λ r. r.0.dead) fired ∙ dead)
run-tries (suc n) seq count m fragmented bytes a e =
    let (m', fired, a', same_max, same_rto) =
      fire-Awaits seq count m fragmented bytes a (omega arith) in
    let (effects, dead) = run-tries n seq (count + 1) m' fragmented bytes a' (omega arith) in
    let later = replicate (suc n) (Event.fired seq) in
    (
      ap (λ r. r.1 ++ (run later r.0).1) fired
          ∙ ap
              (λ t.
                Effect.transmitted seq fragmented bytes
                ∷ Effect.armed seq (backed_off (count + 1) m.rto)
                ∷ t)
              (effects ∙ ap (λ t. tries seq fragmented bytes t (count + 1) n) same_rto),
      ap (λ r. (run later r.0).0.dead) fired ∙ dead,
    )
