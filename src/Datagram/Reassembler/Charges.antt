-- ===== src/Datagram/Reassembler/Charges.antt =====
-- What the entries of the table hold together, and what an open entry is.
use plexus.Common.{
  ℕ, zero, suc, ◌+◌, ◌*◌, ◌≤◌, ◌<◌, ◌≡◌, refl, sym, ap, ◌∙◌, arith, true, false, ltb,
}
use plexus.Common.{
  Bool-cases, inl, inr, none, some, List, [], ◌∷◌, length, get_or, set, insert_at, remove_at, All,
  map,
}
use plexus.Datagram.ReassemblerFlatMap.{ReassemblerFlatMap, lower_bound, has_key, find}
use plexus.Datagram.Reassembler.{Entry, no_entry, structural_cost}
use plexus.Datagram.Reassembler.Parts.{count, total}
use native.Mathlib.Nat.{mul-le-mul}

-- An open entry: it holds what its marks say, and waits for more.
pub record IsOpen (vector_size max_message_size : ℕ) (e : Entry) : Type 0 where
  pub marks : length e.present ≡ length e.slots
  pub empty : (i : ℕ) → get_or e.present i false ≡ false → get_or e.slots i [] ≡ []
  pub counted : e.received ≡ count e.present
  pub unfinished : e.received < length e.slots
  pub few : length e.slots ≤ 32768
  pub sized : e.size ≡ total e.slots
  pub small : e.size ≤ max_message_size
  pub charged : e.overhead ≡ structural_cost vector_size (length e.slots)

abbrev pub charge : List (ℕ × Entry) → ℕ
charge [] = 0
charge (x ∷ xs) = x.1.size + x.1.overhead + charge xs

abbrev pub none_at : ℕ × Entry
none_at = (0, no_entry)

pub charge-insert_at :
    (at : ℕ) (x : ℕ × Entry) (xs : List (ℕ × Entry))
    → charge (insert_at at x xs) ≡ x.1.size + x.1.overhead + charge xs
charge-insert_at zero x xs = refl
charge-insert_at (suc at) x [] = refl
charge-insert_at (suc at) x (y ∷ ys) = omega (arith, charge-insert_at at x ys)

pub charge-set :
    (at : ℕ) (x : ℕ × Entry) (xs : List (ℕ × Entry))
    → at < length xs
    → charge (set xs at x) + (get_or xs at none_at).1.size + (get_or xs at none_at).1.overhead
      ≡ charge xs + x.1.size + x.1.overhead
charge-set at x [] l = absurd (omega arith)
charge-set zero x (y ∷ ys) l = omega arith
charge-set (suc at) x (y ∷ ys) l = omega (arith, charge-set at x ys (omega arith))

pub charge-remove_at :
    (at : ℕ) (xs : List (ℕ × Entry))
    → at < length xs
    → charge (remove_at at xs) + (get_or xs at none_at).1.size + (get_or xs at none_at).1.overhead
      ≡ charge xs
charge-remove_at at [] l = absurd (omega arith)
charge-remove_at zero (y ∷ ys) l = omega arith
charge-remove_at (suc at) (y ∷ ys) l = omega (arith, charge-remove_at at ys (omega arith))

pub get_or-charge :
    (at : ℕ) (xs : List (ℕ × Entry))
    → (get_or xs at none_at).1.size + (get_or xs at none_at).1.overhead ≤ charge xs
get_or-charge at [] = omega arith
get_or-charge zero (y ∷ ys) = omega arith
get_or-charge (suc at) (y ∷ ys) = omega (arith, get_or-charge at ys)

module _ {ℓ κ} {A : Type ℓ} (P : A → Type κ) where
  pub All-insert_at : (at : ℕ) (x : A) (xs : List A) → P x → All P xs → All P (insert_at at x xs)
  All-insert_at zero x xs p h = (p, h)
  All-insert_at (suc at) x [] p h = (p, h)
  All-insert_at (suc at) x (y ∷ ys) p (q, h) = (q, All-insert_at at x ys p h)

  pub All-set : (at : ℕ) (x : A) (xs : List A) → P x → All P xs → All P (set xs at x)
  All-set at x [] p h = h
  All-set zero x (y ∷ ys) p (q, h) = (p, h)
  All-set (suc at) x (y ∷ ys) p (q, h) = (q, All-set at x ys p h)

  pub All-remove_at : (at : ℕ) (xs : List A) → All P xs → All P (remove_at at xs)
  All-remove_at at [] h = h
  All-remove_at zero (y ∷ ys) (q, h) = h
  All-remove_at (suc at) (y ∷ ys) (q, h) = (q, All-remove_at at ys h)

  pub All-get_or : (at : ℕ) (d : A) (xs : List A) → at < length xs → All P xs → P (get_or xs at d)
  All-get_or at d [] l h = absurd (omega arith)
  All-get_or zero d (y ∷ ys) l (q, h) = q
  All-get_or (suc at) d (y ∷ ys) l (q, h) = All-get_or at d ys (omega arith) h

-- An entry whose wait is over.
abbrev pub idle : Entry → Entry
idle e = record e { timer = none }

pub idle-IsOpen :
    (vector_size max : ℕ) (e : Entry) → IsOpen vector_size max e → IsOpen vector_size max (idle e)
idle-IsOpen vector_size max e o = record {
  marks = o.marks;
  empty = o.empty;
  counted = o.counted;
  unfinished = o.unfinished;
  few = o.few;
  sized = o.sized;
  small = o.small;
  charged = o.charged;
}

pub idled_cost :
    (key at : ℕ) (xs : List (ℕ × Entry))
    → charge (set xs at (key, idle (get_or xs at none_at).1)) ≡ charge xs
idled_cost key at [] = refl
idled_cost key zero (x ∷ xs) = refl
idled_cost key (suc at) (x ∷ xs) =
    ap (λ (t : ℕ). x.1.size + x.1.overhead + t) (idled_cost key at xs)

pub idled_state :
    (vector_size max key at : ℕ) (xs : List (ℕ × Entry))
    → All (λ (x : ℕ × Entry). IsOpen vector_size max x.1) xs
    → All
        (λ (x : ℕ × Entry). IsOpen vector_size max x.1)
        (set xs at (key, idle (get_or xs at none_at).1))
idled_state vector_size max key at [] h = h
idled_state vector_size max key zero (x ∷ xs) (o, h) = (idle-IsOpen vector_size max x.1 o, h)
idled_state vector_size max key (suc at) (x ∷ xs) (o, h) =
    (o, idled_state vector_size max key at xs h)

pub each_idled_cost :
    (xs : List (ℕ × Entry))
    → charge (map {A = ℕ × Entry} {B = ℕ × Entry} (λ (key, e). (key, idle e)) xs) ≡ charge xs
each_idled_cost [] = refl
each_idled_cost (x ∷ xs) = ap (λ (t : ℕ). x.1.size + x.1.overhead + t) (each_idled_cost xs)

pub each_idled_state :
    (vector_size max : ℕ) (xs : List (ℕ × Entry))
    → All (λ (x : ℕ × Entry). IsOpen vector_size max x.1) xs
    → All
        (λ (x : ℕ × Entry). IsOpen vector_size max x.1)
        (map {A = ℕ × Entry} {B = ℕ × Entry} (λ (key, e). (key, idle e)) xs)
each_idled_state vector_size max [] h = h
each_idled_state vector_size max (x ∷ xs) (o, h) =
    (idle-IsOpen vector_size max x.1 o, each_idled_state vector_size max xs h)

-- The least cost of an entry, of each that is open.
pub structural_cost-least :
    (vector_size n : ℕ) → 0 < n → structural_cost vector_size 1 ≤ structural_cost vector_size n
unfolding structural_cost
structural_cost-least vector_size n p =
    let q : 1 ≤ n = omega (arith, p) in
    let r : vector_size ≤ vector_size = omega arith in
    let l : 1 * vector_size ≤ n * vector_size = mul-le-mul q r in omega (arith, l, p)

pub charge-least :
    (vector_size max : ℕ) (xs : List (ℕ × Entry))
    → All (λ (x : ℕ × Entry). IsOpen vector_size max x.1) xs
    → length xs * structural_cost vector_size 1 ≤ charge xs
charge-least vector_size max [] h = ground arith
charge-least vector_size max (x ∷ xs) (o, h) = omega (
  arith,
  charge-least vector_size max xs h,
  o.charged,
  structural_cost-least vector_size (length x.1.slots) (omega (arith, o.unfinished)),
)

pub remove_at-set {ℓ} :
    {A : Type ℓ} (at : ℕ) (x : A) (xs : List A) → remove_at at (set xs at x) ≡ remove_at at xs
remove_at-set at x [] = refl
remove_at-set zero x (y ∷ ys) = refl
remove_at-set (suc at) x (y ∷ ys) = ap (λ t. y ∷ t) (remove_at-set at x ys)

module _ (key : ℕ) where
  has_key-length : (es : List (ℕ × Entry)) (at : ℕ) → has_key key es at ≡ true → at < length es
  unfolding has_key
  has_key-length [] at h = absurd (ground (arith, h))
  has_key-length (e ∷ es) zero h = omega arith
  has_key-length (e ∷ es) (suc at) h = omega (arith, has_key-length es at h)

  lower_bound-set :
      (es : List (ℕ × Entry)) (v : Entry)
      → lower_bound key (set es (lower_bound key es) (key, v)) ≡ lower_bound key es
  unfolding lower_bound
  lower_bound-set [] v = refl
  lower_bound-set (e ∷ es) v = elim (Bool-cases (ltb e.0 key)) [
    | inl l ↦ rw (l, l, lower_bound-set es v) refl
    | inr l ↦ rw l (let e : ltb key key ≡ false = ground arith in rw e refl)
  ]

  has_key-set :
      (es : List (ℕ × Entry)) (at : ℕ) (v : Entry)
      → has_key key es at ≡ true
      → has_key key (set es at (key, v)) at ≡ true
  unfolding has_key
  has_key-set [] at v h = h
  has_key-set (e ∷ es) zero v h = ground arith
  has_key-set (e ∷ es) (suc at) v h = has_key-set es at v h

  -- What `find` finds, and finds again after it is written.
  pub found_place :
      (m : ReassemblerFlatMap Entry) (at : ℕ)
      → find key m ≡ some at
      → (at < length m.entries)
        × ((v : Entry) → find key (record m { entries = set m.entries at (key, v) }) ≡ some at)
  unfolding find
  found_place m at f = elim (Bool-cases (has_key key m.entries (lower_bound key m.entries))) [
    | inr h ↦ absurd (ground (arith, f, h))
    | inl h ↦
        let same : lower_bound key m.entries ≡ at = ground (arith, f, h) in
        let h' : has_key key m.entries at ≡ true = ap (has_key key m.entries) (sym same) ∙ h in
        (
          has_key-length m.entries at h',
          λ v.
              let low : lower_bound key (set m.entries at (key, v)) ≡ at =
                ap (λ t. lower_bound key (set m.entries t (key, v))) (sym same)
                ∙ lower_bound-set m.entries v
                ∙ same in
              rw (low, has_key-set m.entries at v h') refl,
        )
  ]
