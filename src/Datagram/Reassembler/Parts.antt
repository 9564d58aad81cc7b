-- ===== src/Datagram/Reassembler/Parts.antt =====
-- An entry against the fragments of its message: which of them it holds.
use plexus.Common.{
  ℕ, zero, suc, ◌+◌, ◌≤◌, ◌<◌, ◌≡◌, refl, sym, ap, ◌∙◌, arith, Bool, true, false, ◌^◌,
}
use plexus.Common.{
  if◌then◌else◌, List, [], ◌∷◌, length, get_or, set, concat, length-append, length-set,
  get_or-set_self, get_or-set_ne, elem, elem-cons_self, elem-cons_ne, replicate, length-replicate,
  get_or-replicate,
}
use plexus.Datagram.Reassembler.{Entry, fill_slot, structural_cost, new_entry}
use plexus.Datagram.Reassembler.Entries.{plus64-exact, first_entry}
use native.Mathlib.Decide.{ℕ_discrete}

-- How many of the slots are present.
abbrev pub count : List Bool → ℕ
count [] = 0
count (true ∷ ps) = suc (count ps)
count (false ∷ ps) = count ps

abbrev pub total : List (List ℕ) → ℕ
total xss = length (concat xss)

pub count-set :
    (ps : List Bool) (i : ℕ)
    → i < length ps
    → get_or ps i false ≡ false
    → count (set ps i true) ≡ suc (count ps)
count-set [] i l e = absurd (omega arith)
count-set (true ∷ ps) zero l e = absurd (ground (arith, e))
count-set (false ∷ ps) zero l e = refl
count-set (true ∷ ps) (suc i) l e = ap suc (count-set ps i (omega arith) e)
count-set (false ∷ ps) (suc i) l e = count-set ps i (omega arith) e

pub count-length : (ps : List Bool) → count ps ≤ length ps
count-length [] = omega arith
count-length (true ∷ ps) = omega (arith, count-length ps)
count-length (false ∷ ps) = omega (arith, count-length ps)

pub count_missing :
    (ps : List Bool) (i : ℕ) → i < length ps → get_or ps i false ≡ false → count ps < length ps
count_missing [] i l e = absurd (omega arith)
count_missing (true ∷ ps) zero l e = absurd (ground (arith, e))
count_missing (false ∷ ps) zero l e = omega (arith, count-length ps)
count_missing (true ∷ ps) (suc i) l e = omega (arith, count_missing ps i (omega arith) e)
count_missing (false ∷ ps) (suc i) l e = omega (arith, count_missing ps i (omega arith) e)

pub count_full :
    (ps : List Bool) → ((i : ℕ) → i < length ps → get_or ps i false ≡ true) → count ps ≡ length ps
count_full [] h = refl
count_full (true ∷ ps) h = ap suc (count_full ps (λ i l. h (suc i) (omega arith)))
count_full (false ∷ ps) h = absurd (ground (arith, h 0 (omega arith)))

pub count-replicate : (n : ℕ) → count (replicate n false) ≡ 0
count-replicate zero = refl
count-replicate (suc n) = count-replicate n

pub total-set :
    (xss : List (List ℕ)) (i : ℕ) (xs : List ℕ)
    → i < length xss
    → get_or xss i [] ≡ []
    → total (set xss i xs) ≡ total xss + length xs
total-set [] i xs l e = absurd (omega arith)
total-set (ys ∷ xss) zero xs l e = rw e (omega (arith, length-append xs (concat xss)))
total-set (ys ∷ xss) (suc i) xs l e = omega (
  arith,
  length-append ys (concat (set xss i xs)),
  length-append ys (concat xss),
  total-set xss i xs (omega arith) e,
)

total-le :
    (xss yss : List (List ℕ))
    → length xss ≡ length yss
    → ((i : ℕ) → i < length yss → length (get_or xss i []) ≤ length (get_or yss i []))
    → total xss ≤ total yss
total-le [] [] e h = omega arith
total-le [] (ys ∷ yss) e h = absurd (omega arith)
total-le (xs ∷ xss) [] e h = absurd (omega arith)
total-le (xs ∷ xss) (ys ∷ yss) e h = omega (
  arith,
  length-append xs (concat xss),
  length-append ys (concat yss),
  h 0 (omega arith),
  total-le xss yss (omega (arith, e)) (λ i l. h (suc i) (omega arith)),
)

pub get_or-total : (xss : List (List ℕ)) (i : ℕ) → length (get_or xss i []) ≤ total xss
get_or-total [] i = omega arith
get_or-total (xs ∷ xss) zero = omega (arith, length-append xs (concat xss))
get_or-total (xs ∷ xss) (suc i) = omega (arith, length-append xs (concat xss), get_or-total xss i)

pub get_or_ext :
    (xss yss : List (List ℕ))
    → length xss ≡ length yss
    → ((i : ℕ) → i < length yss → get_or xss i [] ≡ get_or yss i [])
    → xss ≡ yss
get_or_ext [] [] e h = refl
get_or_ext [] (ys ∷ yss) e h = absurd (omega arith)
get_or_ext (xs ∷ xss) [] e h = absurd (omega arith)
get_or_ext (xs ∷ xss) (ys ∷ yss) e h =
    let first = h 0 (omega arith) in
    let rest = get_or_ext xss yss (omega (arith, e)) (λ i l. h (suc i) (omega arith)) in
    λ j. first j ∷ rest j

pub total-replicate : (n : ℕ) → total (replicate n []) ≡ 0
total-replicate zero = refl
total-replicate (suc n) = total-replicate n

-- The entry holds, of the fragments, those whose positions are in `seen`.
pub record Part (cost : ℕ) (frags : List (List ℕ)) (seen : List ℕ) (e : Entry) : Type 0 where
  pub all_slots : length e.slots ≡ length frags
  pub all_marks : length e.present ≡ length frags
  pub kept : (i : ℕ) → i < length frags → get_or e.present i false ≡ elem i seen
  pub content :
      (i : ℕ)
      → i < length frags
      → get_or e.slots i [] ≡ (if elem i seen then get_or frags i [] else [])
  pub counted : e.received ≡ count e.present
  pub sized : e.size ≡ total e.slots
  pub charged : e.overhead ≡ cost

module _ (cost : ℕ) (frags : List (List ℕ)) (seen : List ℕ) (e : Entry)
    (h : Part cost frags seen e) where
  kept_or_none : (b : Bool) (xs : List ℕ) → length (if b then xs else []) ≤ length xs
  kept_or_none true xs = omega arith
  kept_or_none false xs = omega arith

  -- What an entry holds is no more than the message.
  pub Part-total : e.size ≤ total frags
  Part-total = omega (
    arith,
    h.sized,
    total-le e.slots frags h.all_slots
        (λ i l. rw (h.content i l) (kept_or_none (elem i seen) (get_or frags i []))),
  )

  -- A fragment that is there already.
  pub Part-again : (i : ℕ) → elem i seen ≡ true → Part cost frags (i ∷ seen) e
  Part-again i old = record {
    all_slots = h.all_slots;
    all_marks = h.all_marks;
    kept = λ j l. h.kept j l ∙ sym (same j);
    content = λ j l. rw (same j) (h.content j l);
    counted = h.counted;
    sized = h.sized;
    charged = h.charged;
  }
    where
      same : (j : ℕ) → elem j (i ∷ seen) ≡ elem j seen
      same j = elim (ℕ_discrete j i) [
        | yes e ↦ rw (e, elem-cons_self i seen) (sym old)
        | no ne ↦ elem-cons_ne j i seen ne
      ]

  module _ (i : ℕ) (l : i < length frags) (new : elem i seen ≡ false) where
    free : get_or e.slots i [] ≡ []
    free = h.content i l ∙ ap (λ b. if b then get_or frags i [] else []) new

    unmarked : get_or e.present i false ≡ false
    unmarked = h.kept i l ∙ new

    pub Part-sum : e.size + length (get_or frags i []) ≤ total frags
    Part-sum =
        let frag = get_or frags i [] in
        let l' : i < length e.slots = omega (arith, h.all_slots, l) in
        omega (
          arith,
          h.sized,
          total-set e.slots i frag l' free,
          total-le (set e.slots i frag) frags (length-set e.slots i frag ∙ h.all_slots) (λ j p.
              elim (ℕ_discrete i j) [
                | yes q ↦ rw (← q, get_or-set_self e.slots i frag [] l') (omega arith)
                | no ne ↦
                    rw (get_or-set_ne e.slots i j frag [] ne, h.content j p)
                      (kept_or_none (elem j seen) (get_or frags j []))
              ]),
        )

    pub fill_slot-Part :
        total frags < 2 ^ 64
        → length frags < 2 ^ 32
        → Part cost frags (i ∷ seen) (fill_slot i (get_or frags i []) e)
    unfolding fill_slot
    fill_slot-Part small few = record {
      all_slots = length-set e.slots i (get_or frags i []) ∙ h.all_slots;
      all_marks = length-set e.present i true ∙ h.all_marks;
      kept = λ j p. elim (ℕ_discrete i j) [
        | yes q ↦
            rw (← q, elem-cons_self i seen)
              (get_or-set_self e.present i true false (omega (arith, h.all_marks)))
        | no ne ↦
            get_or-set_ne e.present i j true false ne
            ∙ h.kept j p
            ∙ sym (elem-cons_ne j i seen (λ q. ne (sym q)))
      ];
      content = λ j p. elim (ℕ_discrete i j) [
        | yes q ↦
            rw (← q, elem-cons_self i seen)
              (get_or-set_self e.slots i (get_or frags i []) [] (omega (arith, h.all_slots)))
        | no ne ↦
            get_or-set_ne e.slots i j (get_or frags i []) [] ne
            ∙ h.content j p
            ∙ ap (λ b. if b then get_or frags j [] else [])
                (sym (elem-cons_ne j i seen (λ q. ne (sym q))))
      ];
      counted =
          plus64-exact e.received 1
            (omega (arith, h.counted, count-length e.present, h.all_marks, few))
          ∙ omega (arith, h.counted, count-set e.present i (omega (arith, h.all_marks)) unmarked);
      sized =
          plus64-exact e.size (length (get_or frags i [])) (omega (arith, Part-sum, small))
          ∙ omega (
            arith,
            h.sized,
            total-set e.slots i (get_or frags i []) (omega (arith, h.all_slots)) free,
          );
      charged = h.charged;
    }

-- A new entry holds none.
pub first_entry-Part :
    (vector_size msg_id : ℕ) (frags : List (List ℕ))
    → Part
        (structural_cost vector_size (length frags))
        frags
        []
        (first_entry vector_size msg_id (length frags))
unfolding first_entry new_entry elem
first_entry-Part vector_size msg_id frags =
    let n = length frags in
    record {
      all_slots = length-replicate n [];
      all_marks = length-replicate n false;
      kept = λ i l. get_or-replicate n i false;
      content = λ i l. get_or-replicate n i [];
      counted = sym (count-replicate n);
      sized = sym (total-replicate n);
      charged = refl;
    }
