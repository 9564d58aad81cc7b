-- ===== src/Datagram/UdpReliableArq/Outstanding.antt =====
-- Which segments the sender still holds for retransmission, after its operations.
use plexus.Common.{
  ℕ, zero, suc, ◌+◌, ◌%◌, ◌<◌, ◌≡◌, refl, sym, ap, ◌∙◌, arith, Bool, true, false, not, Option, none,
  some,
}
use plexus.Common.{if_elim, leb, List, [], ◌∷◌, length, get_or, set, get_or-map, get_or-set_self}
use plexus.Datagram.UdpReliableArq.{
  Slot, UdpReliableArq, Effect, empty_slot, slot_at, put_slot, arm, fill_slot, admission,
  SubmitResult, submit, in_flight, give_up, on_rto, expired, ended, fire, cancel,
}
use native.Mathlib.Nat.{mod-lt}

-- The slots of `m'` are outstanding that are outstanding in `m`.
abbrev pub SameOut : UdpReliableArq → UdpReliableArq → Type 0
SameOut m m' =
    (j : ℕ) → (get_or m'.slots j empty_slot).outstanding ≡ (get_or m.slots j empty_slot).outstanding

set_same :
    (xs : List Slot) (i j : ℕ) (v : Slot)
    → v.outstanding ≡ (get_or xs i empty_slot).outstanding
    → (get_or (set xs i v) j empty_slot).outstanding ≡ (get_or xs j empty_slot).outstanding
set_same [] i j v e = refl
set_same (x ∷ xs) zero zero v e = e
set_same (x ∷ xs) zero (suc j) v e = refl
set_same (x ∷ xs) (suc i) zero v e = refl
set_same (x ∷ xs) (suc i) (suc j) v e = set_same xs i j v e

-- Where one that is outstanding is written, no other ceases to be.
set_more :
    (xs : List Slot) (i j : ℕ) (v : Slot)
    → v.outstanding ≡ true
    → (get_or (set xs i v) j empty_slot).outstanding ≡ false
    → (get_or xs j empty_slot).outstanding ≡ false
set_more [] i j v e f = f
set_more (x ∷ xs) zero zero v e f = absurd (ground (arith, e, f))
set_more (x ∷ xs) zero (suc j) v e f = f
set_more (x ∷ xs) (suc i) zero v e f = f
set_more (x ∷ xs) (suc i) (suc j) v e f = set_more xs i j v e f

put_slot-SameOut :
    (seq : ℕ) (s : Slot) (m : UdpReliableArq)
    → s.outstanding ≡ (slot_at m seq).outstanding
    → SameOut m (put_slot seq s m)
put_slot-SameOut seq s m e j = set_same m.slots (seq % m.window) j s e

arm-SameOut : (seq : ℕ) (m : UdpReliableArq) → SameOut m (arm seq m).0
unfolding arm
arm-SameOut seq m = put_slot-SameOut seq (record (slot_at m seq) { timer = some seq }) m refl

give_up-SameOut : (m : UdpReliableArq) → SameOut m (give_up m).0
unfolding give_up
give_up-SameOut m =
    if_elim (λ (r : UdpReliableArq × List Effect). SameOut m r.0) m.dead _ _ (λ e j. refl)
      (λ e j. refl)

on_rto-SameOut : (seq : ℕ) (m : UdpReliableArq) → SameOut m (on_rto seq m).0
unfolding on_rto
on_rto-SameOut seq m =
    let s = slot_at m seq in
    let s' : Slot = record s { retransmits = s.retransmits + 1; retransmitted = true } in
    if_elim (λ (r : UdpReliableArq × List Effect). SameOut m r.0) (not s.outstanding) _ _
      (λ e j. refl)
      (λ e.
        if_elim (λ (r : UdpReliableArq × List Effect). SameOut m r.0)
          (leb m.max_retransmit s.retransmits) _ _ (λ e. give_up-SameOut m)
          (λ e j. arm-SameOut seq (put_slot seq s' m) j ∙ put_slot-SameOut seq s' m refl j))

ended-SameOut : (timer : Option ℕ) (i : ℕ) (m : UdpReliableArq) → SameOut m (ended timer i m).0
unfolding ended expired
ended-SameOut none i m = λ j. refl
ended-SameOut (some seq) i m =
    let idle : Slot = record (get_or m.slots i empty_slot) { timer = none } in
    let m' : UdpReliableArq = record m { slots = set m.slots i idle } in
    let still : SameOut m m' = λ j. set_same m.slots i j idle refl in
    if_elim (λ (r : UdpReliableArq × List Effect). SameOut m r.0) m.dead (m', []) (on_rto seq m')
      (λ e. still) (λ e j. on_rto-SameOut seq m' j ∙ still j)

pub fire-SameOut : (i : ℕ) (m : UdpReliableArq) → SameOut m (fire i m).0
unfolding fire
fire-SameOut i m = ended-SameOut (get_or m.slots i empty_slot).timer i m

pub cancel-SameOut : (m : UdpReliableArq) → SameOut m (cancel m)
unfolding cancel
cancel-SameOut m j = ap (λ (s : Slot). s.outstanding) (get_or-map quiet m.slots j empty_slot)
  where
    quiet : Slot → Slot
    quiet s = record s { timer = none }

module _ (now : ℕ) (fragmented : Bool) (payload : List ℕ) (m : UdpReliableArq) where
  abbrev filled : ℕ → UdpReliableArq
  filled seq =
      put_slot seq (fill_slot now fragmented payload (slot_at m seq))
        (record m { next = (m.next + 1) % 65536 })

  admission-filled : (seq : ℕ) → SameOut (filled seq) (admission now fragmented payload m seq).0
  unfolding admission
  admission-filled seq = arm-SameOut seq (filled seq)

  -- No segment ceases to be outstanding when one is submitted.
  pub submit-more :
      (j : ℕ)
      → (get_or (submit now fragmented payload m).0.slots j empty_slot).outstanding ≡ false
      → (get_or m.slots j empty_slot).outstanding ≡ false
  unfolding submit fill_slot
  submit-more j =
      if_elim
        (λ (r : UdpReliableArq × SubmitResult × List Effect).
          (get_or r.0.slots j empty_slot).outstanding ≡ false
          → (get_or m.slots j empty_slot).outstanding ≡ false)
        (leb m.window (in_flight m)) _ _ (λ e f. f)
        (λ e f.
          set_more m.slots (m.next % m.window) j
            (fill_slot now fragmented payload (slot_at m m.next)) refl
            (sym (admission-filled m.next j) ∙ f))

  -- The one that is admitted is.
  pub submit-new :
      0 < m.window
      → length m.slots ≡ m.window
      → leb m.window (in_flight m) ≡ false
      → (get_or
          (submit now fragmented payload m).0.slots
          (m.next % m.window)
          empty_slot).outstanding
        ≡ true
  unfolding submit fill_slot
  submit-new positive size room =
      let l = mod-lt m.next positive in
      rw room (
        admission-filled m.next (m.next % m.window)
        ∙ ap (λ (s : Slot). s.outstanding)
            (get_or-set_self m.slots (m.next % m.window)
              (fill_slot now fragmented payload (slot_at m m.next)) empty_slot
              (omega (arith, size))))
