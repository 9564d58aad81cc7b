-- ===== src/Common/Members.antt =====
-- Which numbers a list holds.
use Prim.Native.Nat.{ℕ, ◌≤◌, ◌<◌}
use mathlib.Core.Path.{◌≡◌, refl}
use mathlib.Core.Logic.{◌≢◌}
use mathlib.Core.Bool.{Bool, true, false, ◌||◌}
use mathlib.Core.List.{List, [], ◌∷◌}
use native.Mathlib.Omega.{arith}
use plexus.Common.Tests.{◌==◌}
use plexus.Common.Lists.{All}

unfoldable pub elem : ℕ → List ℕ → Bool
elem n [] = false
elem n (x ∷ xs) = (n == x) || elem n xs

pub above-elem : (h n : ℕ) (xs : List ℕ) → All (λ x. x ≤ h) xs → h < n → elem n xs ≡ false
unfolding elem
above-elem h n [] b p = refl
above-elem h n (x ∷ xs) (q, b) p = let r = above-elem h n xs b p in ground arith

pub elem-cons_ne : (n x : ℕ) (xs : List ℕ) → n ≢ x → elem n (x ∷ xs) ≡ elem n xs
unfolding elem
elem-cons_ne n x xs h = ground arith

pub elem-cons_self : (n : ℕ) (xs : List ℕ) → elem n (n ∷ xs) ≡ true
unfolding elem
elem-cons_self n xs = ground arith
