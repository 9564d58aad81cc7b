-- ===== src/Io/PriorityBandQueue/Fifo.antt =====
-- A band against a first-in first-out queue of at most 256 frames.
use plexus.Common.{
  ℕ, zero, suc, ◌+◌, ◌-◌, ◌%◌, ◌≤◌, ◌<◌, ◌≡◌, refl, sym, ap, ◌∙◌, ◌≢◌, arith, true, false, ◌==◌,
  ==_iff, if◌then◌else◌, Bool-cases, ◌⊎◌, inl, inr,
}
use plexus.Common.{
  Option, none, some, List, [], ◌∷◌, ◌++◌, length, take, get_or, set, replicate, length-set,
  length-append, length-replicate, length-take, get_or-set_self, get_or-set_ne,
}
use plexus.Io.PriorityBandQueue.{
  Band, Congestion, DropCause, block, drop_oldest, drop_newest, no_drop, dropped_oldest,
  dropped_newest, blocked,
}
use plexus.Io.PriorityBandQueue.{
  new_band, is_empty, front, pop, grown, admit_tail, evicted, push_with_verdict,
}

module _ {ℓ} {A : Type ℓ} where
  -- Frame `i` of a queue.
  abbrev pub nth : List A → ℕ → Option A
  nth [] i = none
  nth (x ∷ q) zero = some x
  nth (x ∷ q) (suc i) = nth q i

  -- What the queue does with a frame that is offered.
  unfoldable pub offer : Congestion → A → List A → List A × DropCause
  offer block frame q = if length q == 256 then (q, blocked) else (q ++ (frame ∷ []), no_drop)
  offer drop_newest frame q =
      if length q == 256 then (q, dropped_newest) else (q ++ (frame ∷ []), no_drop)
  offer drop_oldest frame [] = (frame ∷ [], no_drop)
  offer drop_oldest frame (x ∷ q) =
      if length (x ∷ q) == 256
      then (q ++ (frame ∷ []), dropped_oldest)
      else (x ∷ (q ++ (frame ∷ [])), no_drop)

  -- The ring holds the queue from its head on.
  pub record Holds (b : Band A) (q : List A) : Type ℓ where
    pub size : (length b.slots ≡ 256) ⊎ ((length b.slots ≡ 0) × (b.count ≡ 0))
    pub inside : b.head < 256
    pub resident : b.count ≡ length q
    pub bounded : length q ≤ 256
    pub frames : (i : ℕ) → i < length q → get_or b.slots ((b.head + i) % 256) none ≡ nth q i

  pub new_band-Holds : Holds new_band []
  unfolding new_band
  new_band-Holds = record {
    size = inr (refl, refl);
    inside = omega arith;
    resident = refl;
    bounded = omega arith;
    frames = λ i p. absurd (omega arith);
  }

  pub front_lem : (b : Band A) (x : A) (q : List A) → Holds b (x ∷ q) → front b ≡ some x
  unfolding front
  front_lem b x q h =
      let here : (b.head + 0) % 256 ≡ b.head = omega (arith, h.inside) in
      ap (λ i. get_or b.slots i none) (sym here) ∙ h.frames 0 (omega arith)

  pub is_empty-cons : (b : Band A) (x : A) (q : List A) → Holds b (x ∷ q) → is_empty b ≡ false
  unfolding is_empty
  is_empty-cons b x q h = let r = h.resident in ground arith

  pub is_empty-nil : (b : Band A) → Holds b [] → is_empty b ≡ true
  unfolding is_empty
  is_empty-nil b h = let r = h.resident in ground arith

  pub pop-Holds : (b : Band A) (x : A) (q : List A) → Holds b (x ∷ q) → Holds (pop b) q
  unfolding pop
  pop-Holds b x q h = record {
    size = elim h.size [
      | inl e ↦ inl (length-set b.slots b.head none ∙ e)
      | inr (e, z) ↦ absurd (omega (arith, z, h.resident))
    ];
    inside = omega arith;
    resident = omega (arith, h.resident);
    bounded = omega (arith, h.bounded);
    frames = λ i p.
        let next : ((b.head + 1) % 256 + i) % 256 ≡ (b.head + suc i) % 256 = omega arith in
        let apart : b.head ≢ (b.head + suc i) % 256 =
          λ e. absurd (omega (arith, e, h.inside, h.bounded)) in
        ap (λ k. get_or (set b.slots b.head none) k none) next
        ∙ get_or-set_ne b.slots b.head ((b.head + suc i) % 256) none none apart
        ∙ h.frames (suc i) (omega arith);
  }

  nth-append_front : (q : List A) (x : A) (i : ℕ) → i < length q → nth (q ++ (x ∷ [])) i ≡ nth q i
  nth-append_front [] x i p = absurd (omega arith)
  nth-append_front (y ∷ q) x zero p = refl
  nth-append_front (y ∷ q) x (suc i) p = nth-append_front q x i (omega arith)

  nth-append_last : (q : List A) (x : A) → nth (q ++ (x ∷ [])) (length q) ≡ some x
  nth-append_last [] x = refl
  nth-append_last (y ∷ q) x = nth-append_last q x

  grown-full : (slots : List (Option A)) → length slots ≡ 256 → grown slots ≡ slots
  unfolding grown
  grown-full slots e = let t : (length slots == 256) ≡ true = ground arith in rw t refl

  grown-size : (slots : List (Option A)) → length slots ≤ 256 → length (grown slots) ≡ 256
  unfolding grown
  grown-size slots h = elim (Bool-cases (length slots == 256)) [
    | inl e ↦ rw e (ground arith)
    | inr e ↦ rw e (
        omega (
          arith,
          h,
          length-append (take 256 slots) (replicate (256 - length slots) none),
          length-take 256 slots,
          length-replicate {A = Option A} (256 - length slots) none,
        ))
  ]

  admit_tail-Holds :
      (frame : A) (b : Band A) (q : List A)
      → length q < 256
      → Holds b q
      → Holds (admit_tail frame b) (q ++ (frame ∷ []))
  unfolding admit_tail
  admit_tail-Holds frame b q room h =
      let tail = (b.head + b.count) % 256 in
      let small : length b.slots ≤ 256 = let s = h.size in ground arith in
      let size = grown-size b.slots small in
      let longer : length (q ++ (frame ∷ [])) ≡ length q + 1 = length-append q (frame ∷ []) in
      record {
        size = inl (length-set (grown b.slots) tail (some frame) ∙ size);
        inside = h.inside;
        resident = omega (arith, longer, h.resident);
        bounded = omega (arith, longer);
        frames = λ i p. elim (Bool-cases (i == length q)) [
          | inl e ↦
              let e = (==_iff i (length q)).0 e in
              let place : (b.head + i) % 256 ≡ tail = omega (arith, e, h.resident) in
              ap (λ k. get_or (set (grown b.slots) tail (some frame)) k none) place
              ∙ get_or-set_self (grown b.slots) tail (some frame) none (omega (arith, size))
              ∙ sym (nth-append_last q frame)
              ∙ ap (nth (q ++ (frame ∷ []))) (sym e)
          | inr e ↦
              let l : i < length q = let k = longer in ground arith in
              let apart : tail ≢ (b.head + i) % 256 =
                λ t. absurd (omega (arith, t, h.inside, h.resident, room, l)) in
              get_or-set_ne (grown b.slots) tail ((b.head + i) % 256) (some frame) none apart
              ∙ ap (λ s. get_or s ((b.head + i) % 256) none) (grown-full b.slots (full l))
              ∙ h.frames i l
              ∙ sym (nth-append_front q frame i l)
        ];
      }
    where
      full : {i : ℕ} → i < length q → length b.slots ≡ 256
      full l = elim h.size [ inl e ↦ e | inr (e, z) ↦ absurd (omega (arith, z, h.resident, l)) ]

  -- A counter does not matter to the queue.
  blocks-Holds : (b : Band A) (q : List A) (n : ℕ) → Holds b q → Holds (record b { blocks = n }) q
  blocks-Holds b q n h = record {
    size = h.size;
    inside = h.inside;
    resident = h.resident;
    bounded = h.bounded;
    frames = h.frames;
  }

  newest_drops-Holds :
      (b : Band A) (q : List A) (n : ℕ) → Holds b q → Holds (record b { newest_drops = n }) q
  newest_drops-Holds b q n h = record {
    size = h.size;
    inside = h.inside;
    resident = h.resident;
    bounded = h.bounded;
    frames = h.frames;
  }

  evicted-Holds : (b : Band A) (x : A) (q : List A) → Holds b (x ∷ q) → Holds (evicted b) q
  unfolding evicted
  evicted-Holds b x q h =
      let p = pop-Holds b x q h in
      record {
        size = p.size;
        inside = p.inside;
        resident = p.resident;
        bounded = p.bounded;
        frames = p.frames;
      }

  same_test : (b : Band A) (q : List A) → Holds b q → (b.count == 256) ≡ (length q == 256)
  same_test b q h = ap (λ n. n == 256) h.resident

  -- A band that holds a queue of at most 256 frames answers a frame that is offered as the queue
  -- does, under each congestion mode, and holds the queue that comes of it.
  pub push_with_verdict-offer :
      (mode : Congestion) (frame : A) (b : Band A) (q : List A)
      → Holds b q
      → Holds (push_with_verdict mode frame b).0 (offer mode frame q).0
        × ((push_with_verdict mode frame b).1 ≡ (offer mode frame q).1)
  unfolding push_with_verdict offer
  push_with_verdict-offer block frame b q h = elim (Bool-cases (length q == 256)) [
    | inl e ↦ rw (same_test b q h, e) (blocks-Holds b q (b.blocks + 1) h, refl)
    | inr e ↦
        rw (same_test b q h, e)
          (admit_tail-Holds frame b q (let k = h.bounded in ground arith) h, refl)
  ]
  push_with_verdict-offer drop_newest frame b q h = elim (Bool-cases (length q == 256)) [
    | inl e ↦ rw (same_test b q h, e) (newest_drops-Holds b q (b.newest_drops + 1) h, refl)
    | inr e ↦
        rw (same_test b q h, e)
          (admit_tail-Holds frame b q (let k = h.bounded in ground arith) h, refl)
  ]
  push_with_verdict-offer drop_oldest frame b [] h =
      rw (same_test b [] h) (admit_tail-Holds frame b [] (omega arith) h, refl)
  push_with_verdict-offer drop_oldest frame b (x ∷ q) h =
      elim (Bool-cases (length (x ∷ q) == 256)) [
        | inl e ↦
            rw (same_test b (x ∷ q) h, e)
              (
                admit_tail-Holds frame (evicted b) q (let k = h.bounded in omega arith)
                    (evicted-Holds b x q h),
                refl,
              )
        | inr e ↦
            rw (same_test b (x ∷ q) h, e)
              (admit_tail-Holds frame b (x ∷ q) (let k = h.bounded in ground arith) h, refl)
      ]
