-- ===== src/Datagram/ReassemblerFlatMap/Slots.antt =====
-- The entry of a key that was inserted, read, written and removed.
use plexus.Common.{ℕ, zero, suc, ◌≤◌, ◌≡◌, refl, ap, arith, true, false, ltb}
use plexus.Common.{Bool-cases, inl, inr, List, [], ◌∷◌, length}
use plexus.Common.{get_or, set, insert_at, remove_at}
use plexus.Datagram.ReassemblerFlatMap.{lower_bound, has_key}

module _ {ℓ} {A : Type ℓ} where
  pub length-insert_at : (i : ℕ) (v : A) (xs : List A) → length (insert_at i v xs) ≡ suc (length xs)
  length-insert_at zero v xs = refl
  length-insert_at (suc i) v [] = refl
  length-insert_at (suc i) v (x ∷ xs) = ap suc (length-insert_at i v xs)

  pub get_or-insert_at :
      (i : ℕ) (v d : A) (xs : List A) → i ≤ length xs → get_or (insert_at i v xs) i d ≡ v
  get_or-insert_at zero v d xs p = refl
  get_or-insert_at (suc i) v d [] p = absurd (omega arith)
  get_or-insert_at (suc i) v d (x ∷ xs) p = get_or-insert_at i v d xs (omega arith)

  pub set-insert_at :
      (i : ℕ) (v w : A) (xs : List A)
      → i ≤ length xs
      → set (insert_at i v xs) i w ≡ insert_at i w xs
  set-insert_at zero v w xs p = refl
  set-insert_at (suc i) v w [] p = absurd (omega arith)
  set-insert_at (suc i) v w (x ∷ xs) p = ap (λ t. x ∷ t) (set-insert_at i v w xs (omega arith))

  pub remove_at-insert_at :
      (i : ℕ) (v : A) (xs : List A) → i ≤ length xs → remove_at i (insert_at i v xs) ≡ xs
  remove_at-insert_at zero v xs p = refl
  remove_at-insert_at (suc i) v [] p = absurd (omega arith)
  remove_at-insert_at (suc i) v (x ∷ xs) p =
      ap (λ t. x ∷ t) (remove_at-insert_at i v xs (omega arith))

module _ {ℓ} {A : Type ℓ} (key : ℕ) (v : A) where
  pub lower_bound-length : (es : List (ℕ × A)) → lower_bound key es ≤ length es
  unfolding lower_bound
  lower_bound-length [] = omega arith
  lower_bound-length (e ∷ es) = let p = lower_bound-length es in ground arith

  pub lower_bound-insert_at :
      (es : List (ℕ × A))
      → lower_bound key (insert_at (lower_bound key es) (key, v) es) ≡ lower_bound key es
  unfolding lower_bound
  lower_bound-insert_at [] = let e : ltb key key ≡ false = ground arith in rw e refl
  lower_bound-insert_at (e ∷ es) = elim (Bool-cases (ltb e.0 key)) [
    | inl l ↦ rw (l, l, lower_bound-insert_at es) refl
    | inr l ↦ rw l (let e : ltb key key ≡ false = ground arith in rw e refl)
  ]

  pub has_key-insert_at :
      (es : List (ℕ × A))
      → has_key key (insert_at (lower_bound key es) (key, v) es) (lower_bound key es) ≡ true
  unfolding lower_bound has_key
  has_key-insert_at [] = ground arith
  has_key-insert_at (e ∷ es) = elim (Bool-cases (ltb e.0 key)) [
    | inl l ↦ rw l (has_key-insert_at es)
    | inr l ↦ rw l (ground arith)
  ]
