-- ===== src/Common/Lists.antt =====
-- Lists measured and indexed by native numbers, under the library's names.
use Prim.Native.Nat.{ℕ, zero, suc, ◌+◌, ◌-◌, ◌≤◌, ◌<◌, min}
use mathlib.Core.Path.{◌≡◌, refl, sym, ap, ◌∙◌}
use mathlib.Core.Logic.{◌≢◌}
use mathlib.Core.List.{List, [], ◌∷◌, ◌++◌, map}
use native.Mathlib.Omega.{arith}

module _ {ℓ} {A : Type ℓ} where
  abbrev pub length : List A → ℕ
  length [] = 0
  length (x ∷ xs) = suc (length xs)

  abbrev pub get_or : List A → ℕ → A → A
  get_or [] i d = d
  get_or (x ∷ xs) zero d = x
  get_or (x ∷ xs) (suc i) d = get_or xs i d

  -- A write out of bounds changes nothing.
  abbrev pub set : List A → ℕ → A → List A
  set [] i v = []
  set (x ∷ xs) zero v = v ∷ xs
  set (x ∷ xs) (suc i) v = x ∷ set xs i v

  abbrev pub take : ℕ → List A → List A
  take zero xs = []
  take (suc n) [] = []
  take (suc n) (x ∷ xs) = x ∷ take n xs

  abbrev pub drop : ℕ → List A → List A
  drop zero xs = xs
  drop (suc n) [] = []
  drop (suc n) (x ∷ xs) = drop n xs

  -- Past the end, an insertion is at the end.
  abbrev pub insert_at : ℕ → A → List A → List A
  insert_at zero v xs = v ∷ xs
  insert_at (suc i) v [] = v ∷ []
  insert_at (suc i) v (x ∷ xs) = x ∷ insert_at i v xs

  abbrev pub remove_at : ℕ → List A → List A
  remove_at i [] = []
  remove_at zero (x ∷ xs) = xs
  remove_at (suc i) (x ∷ xs) = x ∷ remove_at i xs

  abbrev pub concat : List (List A) → List A
  concat [] = []
  concat (xs ∷ xss) = xs ++ concat xss

  abbrev pub replicate : ℕ → A → List A
  replicate zero a = []
  replicate (suc n) a = a ∷ replicate n a

  abbrev pub All {κ} : (A → Type κ) → List A → Type κ
  All P [] = Unit {κ}
  All P (x ∷ xs) = P x × All P xs

module _ {ℓ} {A : Type ℓ} where
  pub length-append : (xs ys : List A) → length (xs ++ ys) ≡ length xs + length ys
  length-append [] ys = omega arith
  length-append (x ∷ xs) ys = omega (arith, length-append xs ys)

  pub length-set : (xs : List A) (i : ℕ) (v : A) → length (set xs i v) ≡ length xs
  length-set [] i v = refl
  length-set (x ∷ xs) zero v = refl
  length-set (x ∷ xs) (suc i) v = ap suc (length-set xs i v)

  pub get_or-set_self :
      (xs : List A) (i : ℕ) (v d : A) → i < length xs → get_or (set xs i v) i d ≡ v
  get_or-set_self [] i v d h = elim h [ ]
  get_or-set_self (x ∷ xs) zero v d h = refl
  get_or-set_self (x ∷ xs) (suc i) v d h = get_or-set_self xs i v d (omega arith)

  pub get_or-set_ne :
      (xs : List A) (i j : ℕ) (v d : A) → i ≢ j → get_or (set xs i v) j d ≡ get_or xs j d
  get_or-set_ne [] i j v d h = refl
  get_or-set_ne (x ∷ xs) zero zero v d h = absurd (h refl)
  get_or-set_ne (x ∷ xs) zero (suc j) v d h = refl
  get_or-set_ne (x ∷ xs) (suc i) zero v d h = refl
  get_or-set_ne (x ∷ xs) (suc i) (suc j) v d h = get_or-set_ne xs i j v d (λ e. h (ap suc e))

  pub length-take : (n : ℕ) (xs : List A) → length (take n xs) ≡ min n (length xs)
  length-take zero xs = omega arith
  length-take (suc n) [] = omega arith
  length-take (suc n) (x ∷ xs) = omega (arith, length-take n xs)

  pub length-drop : (n : ℕ) (xs : List A) → length (drop n xs) ≡ length xs - n
  length-drop zero xs = omega arith
  length-drop (suc n) [] = omega arith
  length-drop (suc n) (x ∷ xs) = omega (arith, length-drop n xs)

  pub length-replicate : (n : ℕ) (a : A) → length (replicate n a) ≡ n
  length-replicate zero a = refl
  length-replicate (suc n) a = ap suc (length-replicate n a)

  pub take-append : (xs ys : List A) → take (length xs) (xs ++ ys) ≡ xs
  take-append [] ys = refl
  take-append (x ∷ xs) ys = ap (λ t. x ∷ t) (take-append xs ys)

  pub drop-append : (xs ys : List A) → drop (length xs) (xs ++ ys) ≡ ys
  drop-append [] ys = refl
  drop-append (x ∷ xs) ys = drop-append xs ys

  pub drop-nil : (n : ℕ) → drop {A = A} n [] ≡ []
  drop-nil zero = refl
  drop-nil (suc n) = refl

  pub drop-drop : (n k : ℕ) (xs : List A) → drop n (drop k xs) ≡ drop (k + n) xs
  drop-drop n zero xs = ap (λ k. drop k xs) (omega arith)
  drop-drop n (suc k) [] = drop-nil n ∙ sym (drop-nil (suc k + n))
  drop-drop n (suc k) (x ∷ xs) =
      let e : suc k + n ≡ suc (k + n) = omega arith in rw e (drop-drop n k xs)

  pub take-append-drop : (n : ℕ) (xs : List A) → take n xs ++ drop n xs ≡ xs
  take-append-drop zero xs = refl
  take-append-drop (suc n) [] = refl
  take-append-drop (suc n) (x ∷ xs) = rw (take-append-drop n xs)

  pub take_all : (n : ℕ) (xs : List A) → length xs ≤ n → take n xs ≡ xs
  take_all zero [] h = refl
  take_all zero (x ∷ xs) h = absurd (omega arith)
  take_all (suc n) [] h = refl
  take_all (suc n) (x ∷ xs) h = ap (λ t. x ∷ t) (take_all n xs (omega arith))

  -- An element read at a position that a `drop` shows.
  pub drop_cons :
      (n : ℕ) (xs : List A) {b : A} {bs : List A} (d : A)
      → drop n xs ≡ b ∷ bs
      → (n < length xs) × (get_or xs n d ≡ b) × (drop (suc n) xs ≡ bs)
  drop_cons n [] d h = absurd (nil_ne (sym (drop-nil n) ∙ h))
    where
      nil_ne : {b : A} {bs : List A} → [] ≢ b ∷ bs
      nil_ne e = cc
  drop_cons zero (x ∷ xs) d h = ground arith
  drop_cons (suc n) (x ∷ xs) d h = ground (arith, drop_cons n xs d h)

  pub drop_nil→le : (n : ℕ) (xs : List A) → drop n xs ≡ [] → length xs ≤ n
  drop_nil→le n [] h = omega arith
  drop_nil→le zero (x ∷ xs) h = absurd (cc)
  drop_nil→le (suc n) (x ∷ xs) h = omega (arith, drop_nil→le n xs h)

  pub take-suc :
      (n : ℕ) (xs : List A) (d : A)
      → n < length xs
      → take (suc n) xs ≡ take n xs ++ (get_or xs n d ∷ [])
  take-suc zero [] d h = absurd (omega arith)
  take-suc zero (x ∷ xs) d h = refl
  take-suc (suc n) [] d h = absurd (omega arith)
  take-suc (suc n) (x ∷ xs) d h = ap (λ t. x ∷ t) (take-suc n xs d (omega arith))

  pub drop_all : (n : ℕ) (xs : List A) → length xs ≤ n → drop n xs ≡ []
  drop_all n [] h = drop-nil n
  drop_all zero (x ∷ xs) h = absurd (omega arith)
  drop_all (suc n) (x ∷ xs) h = drop_all n xs (omega arith)

  pub drop-append_short :
      (n : ℕ) (xs ys : List A) → n ≤ length xs → drop n (xs ++ ys) ≡ drop n xs ++ ys
  drop-append_short zero xs ys h = refl
  drop-append_short (suc n) [] ys h = absurd (omega arith)
  drop-append_short (suc n) (x ∷ xs) ys h = drop-append_short n xs ys (omega arith)

  pub take-append_short : (n : ℕ) (xs ys : List A) → n ≤ length xs → take n (xs ++ ys) ≡ take n xs
  take-append_short zero xs ys h = refl
  take-append_short (suc n) [] ys h = absurd (omega arith)
  take-append_short (suc n) (x ∷ xs) ys h =
      ap (λ t. x ∷ t) (take-append_short n xs ys (omega arith))

  pub get_or-append :
      (xs ys : List A) (i : ℕ) (d : A) → i < length xs → get_or (xs ++ ys) i d ≡ get_or xs i d
  get_or-append [] ys i d h = elim h [ ]
  get_or-append (x ∷ xs) ys zero d h = refl
  get_or-append (x ∷ xs) ys (suc i) d h = get_or-append xs ys i d (omega arith)

  pub get_or-append_last : (xs : List A) (x d : A) → get_or (xs ++ (x ∷ [])) (length xs) d ≡ x
  get_or-append_last [] x d = refl
  get_or-append_last (y ∷ ys) x d = get_or-append_last ys x d

  pub get_or-replicate : (n i : ℕ) (a : A) → get_or (replicate n a) i a ≡ a
  get_or-replicate zero i a = refl
  get_or-replicate (suc n) zero a = refl
  get_or-replicate (suc n) (suc i) a = get_or-replicate n i a

module _ {ℓ κ} {A : Type ℓ} {B : Type κ} (f : A → B) where
  pub length-map : (xs : List A) → length (map f xs) ≡ length xs
  length-map [] = refl
  length-map (x ∷ xs) = ap suc (length-map xs)

  pub get_or-map : (xs : List A) (i : ℕ) (d : A) → get_or (map f xs) i (f d) ≡ f (get_or xs i d)
  get_or-map [] i d = refl
  get_or-map (x ∷ xs) zero d = refl
  get_or-map (x ∷ xs) (suc i) d = get_or-map xs i d

module _ {ℓ κ} {A : Type ℓ} (P : A → Type κ) where
  pub All-append : (xs ys : List A) → All P xs → All P ys → All P (xs ++ ys)
  All-append [] ys hx hy = hy
  All-append (x ∷ xs) ys hx hy = (hx.0, All-append xs ys hx.1 hy)

  pub All-drop : (n : ℕ) (xs : List A) → All P xs → All P (drop n xs)
  All-drop zero xs h = h
  All-drop (suc n) [] h = h
  All-drop (suc n) (x ∷ xs) h = All-drop n xs h.1
