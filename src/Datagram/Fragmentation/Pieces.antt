-- ===== src/Datagram/Fragmentation/Pieces.antt =====
-- The fragments of a message: their number, their positions and their slices.
use plexus.Common.{
  ℕ, zero, suc, ◌+◌, ◌-◌, ◌*◌, ◌/◌, ◌%◌, ◌^◌, min, ◌≤◌, ◌<◌, ◌≡◌, refl, sym, ap, ◌∙◌, arith, Bool,
}
use plexus.Common.{
  List, [], ◌∷◌, map, length, get_or, take, drop, concat, drop_all, drop-drop, take-append-drop,
  length-drop, length-take,
}
use plexus.Datagram.Fragmentation.{
  Fragment, fragment, split_loop, fragment_count, effective_fragment_budget, split,
  max_message_size, max_fragment_count,
}
use native.Mathlib.Nat.{lt-mul-div-succ, mod-eq_of_lt, zero-add, zero-mul, div-lt_iff_lt-mul}
use mathlib.Core.Path.{subst}
use native.Mathlib.Decide.{ℕ_discrete}
use plexus.Common.{if_elim, ◌==◌}

abbrev pub slices : List Fragment → List (List ℕ)
slices = map {A = Fragment} {B = List ℕ} (λ f. f.slice)

abbrev pub no_fragment : Fragment
no_fragment = record { frag_idx = 0; frag_cnt = 0; slice = [] }

pub effective_fragment_budget-floor :
    (transport : ℕ) (aead : Bool) → 128 ≤ effective_fragment_budget transport aead
unfolding effective_fragment_budget
effective_fragment_budget-floor transport aead = ground arith

clipped_take : (n : ℕ) (xs : List ℕ) → take (min n (length xs)) xs ≡ take n xs
clipped_take zero xs = let e : min 0 (length xs) ≡ 0 = omega arith in ap (λ t. take t xs) e
clipped_take (suc n) [] = let e : min (suc n) 0 ≡ 0 = omega arith in ap (λ t. take {A = ℕ} t []) e
clipped_take (suc n) (x ∷ xs) =
    let e : min (suc n) (suc (length xs)) ≡ suc (min n (length xs)) = omega arith in
    rw e (ap (λ t. x ∷ t) (clipped_take n xs))

module _ (payload : List ℕ) (budget cnt : ℕ) where
  fragment-slice :
      (i : ℕ) → (fragment payload budget cnt i).slice ≡ take budget (drop (i * budget) payload)
  unfolding fragment
  fragment-slice i =
      ap (λ n. take (min budget n) (drop (i * budget) payload))
        (sym (length-drop (i * budget) payload))
      ∙ clipped_take budget (drop (i * budget) payload)

  concat-slices :
      (turns i : ℕ)
      → length payload ≤ (i + turns) * budget
      → concat (slices (split_loop turns i payload budget cnt)) ≡ drop (i * budget) payload
  unfolding split_loop
  concat-slices zero i p =
      let e : i + 0 ≡ i = omega arith in sym (drop_all (i * budget) payload (subst_le e p))
    where
      subst_le : {j k : ℕ} → j ≡ k → length payload ≤ j * budget → length payload ≤ k * budget
      subst_le e p = rw (← e) p
  concat-slices (suc turns) i p =
      let here = fragment-slice i in
      let e : (i + suc turns) ≡ (i + 1) + turns = omega arith in
      let next : (i + 1) * budget ≡ i * budget + budget = omega arith in
      let rest = concat-slices turns (i + 1) (rw (← e) p) in
      rw (here, rest, next, ← drop-drop budget (i * budget) payload)
        (take-append-drop budget (drop (i * budget) payload))

  pub length-split_loop : (turns i : ℕ) → length (split_loop turns i payload budget cnt) ≡ turns
  unfolding split_loop
  length-split_loop zero i = refl
  length-split_loop (suc turns) i = ap suc (length-split_loop turns (i + 1))

  pub get_or-split_loop :
      (turns i j : ℕ) (d : Fragment)
      → j < turns
      → get_or (split_loop turns i payload budget cnt) j d ≡ fragment payload budget cnt (i + j)
  unfolding split_loop
  get_or-split_loop zero i j d p = absurd (omega arith)
  get_or-split_loop (suc turns) i zero d p = ap (fragment payload budget cnt) (omega arith)
  get_or-split_loop (suc turns) i (suc j) d p =
      get_or-split_loop turns (i + 1) j d (omega arith)
      ∙ ap (fragment payload budget cnt) (omega arith)

module _ (payload : List ℕ) (budget : ℕ) (p : 0 < budget) where
  pub fragment_count-positive : 0 < fragment_count payload budget
  unfolding fragment_count
  fragment_count-positive =
      let q = (length payload + budget - 1) / budget in
      let l = lt-mul-div-succ (length payload + budget - 1) p in
      if_elim (λ t. 0 < t) (length payload == 0) 1 q (λ e. omega arith)
        (λ e. elim (ℕ_discrete q 0) [
          | yes z ↦
              let l' = subst (λ t. length payload + budget - 1 < budget * (t + 1)) z l in
              absurd (ground (arith, e, l'))
          | no ne ↦ omega arith
        ])

  fragment_count-covers : length payload ≤ fragment_count payload budget * budget
  unfolding fragment_count
  fragment_count-covers =
      let l = lt-mul-div-succ (length payload + budget - 1) p in
      if_elim (λ t. length payload ≤ t * budget) (length payload == 0) 1
        ((length payload + budget - 1) / budget) (λ e. ground arith) (λ e. omega (arith, l))

  fragment_count-below :
      (n : ℕ) → 1 < n → length payload + budget - 1 < n * budget → fragment_count payload budget < n
  unfolding fragment_count
  fragment_count-below n more l =
      if_elim (λ t. t < n) (length payload == 0) 1 ((length payload + budget - 1) / budget)
        (λ e. more) (λ e. (div-lt_iff_lt-mul p).1 l)

-- The fragments of a message, against its bytes.
pub record Splits (payload : List ℕ) (budget : ℕ) (r : ℕ × List Fragment) : Type 0 where
  pub joined : concat (slices r.1) ≡ payload
  pub counted : length r.1 ≡ r.0
  pub numbered :
      (i : ℕ)
      → i < r.0
      → ((get_or r.1 i no_fragment).frag_idx ≡ i)
        × ((get_or r.1 i no_fragment).frag_cnt ≡ r.0)
        × (length (get_or r.1 i no_fragment).slice ≤ budget)

-- A message of at most 2^38 bytes is split into pieces that are numbered from 0, all with the number
-- of the pieces, each of at most the budget, and that are together the message; and where it has at
-- most 4 MiB, these are at least one and no more than a reassembler takes.
pub split-Splits :
    (payload : List ℕ) (transport : ℕ) (aead : Bool)
    → length payload ≤ 2 ^ 38
    → Splits payload (effective_fragment_budget transport aead) (split payload transport aead)
      × (0 < (split payload transport aead).0)
      × (length payload ≤ max_message_size → (split payload transport aead).0 ≤ max_fragment_count)
unfolding split
split-Splits payload transport aead small =
    let budget = effective_fragment_budget transport aead in
    let floor = effective_fragment_budget-floor transport aead in
    let p : 0 < budget = omega (arith, floor) in
    let count = fragment_count payload budget in
    let below =
      fragment_count-below payload budget p (2 ^ 32) (omega arith) (omega (arith, small, floor)) in
    let fits : count % 2 ^ 32 ≡ count = mod-eq_of_lt below in
    let piece = fragment-slice payload budget count in
    rw fits (
      record {
        joined =
            concat-slices payload budget count count 0
              (rw zero-add (fragment_count-covers payload budget p))
            ∙ ap (λ t. drop t payload) (zero-mul budget);
        counted = length-split_loop payload budget count count 0;
        numbered = λ i l.
            rw (get_or-split_loop payload budget count count 0 i no_fragment l, zero-add)
              (
                unfold fragment in mod-eq_of_lt (omega (arith, l, below)),
                unfold fragment in refl,
                rw (piece i, length-take budget (drop (i * budget) payload)) (omega arith),
              );
      },
      fragment_count-positive payload budget p,
      λ le.
          let l =
            fragment_count-below payload budget p 32769 (omega arith) (omega (arith, le, floor)) in
          omega (arith, l),
    )
