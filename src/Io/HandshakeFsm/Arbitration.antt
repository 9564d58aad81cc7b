-- ===== src/Io/HandshakeFsm/Arbitration.antt =====
-- Simultaneous connects: what each of the two sides keeps.
use plexus.Common.{ℕ, ◌<◌, ◌≡◌, refl, ap, ◌∙◌, arith, Bool, true, false, ◌⊎◌}
use plexus.Common.{[], ◌∷◌, Bool-cases, inl, inr, ◌≢◌, ltb, if◌then◌else◌}
use mathlib.Core.Path.{ap₂, subst}
use native.Mathlib.Decide.{ℕ_discrete}
use plexus.Io.HandshakeFsm.{HandshakeFsm, NodeId, HandshakeRequest, AttachFacts}
use plexus.Io.HandshakeFsm.{
  greater_id, arbitrate_dedup, racing_outbound, complete, complete_inbound,
}
use plexus.Io.HandshakeFsm.{keep_outbound, keep_inbound, on_request, keep_claims}
use plexus.Io.HandshakeFsm.{resolve_inbound, abort_result}

abbrev cons : ℕ → NodeId → NodeId
cons x xs = x ∷ xs

-- The order of ids, byte by byte from the first: a greater byte, or a longer id where no byte differs.
pub data IsGreater : NodeId → NodeId → Type 0 where
  longer : (x : ℕ) (xs : NodeId) → IsGreater (x ∷ xs) []
  first : (x y : ℕ) (xs ys : NodeId) → y < x → IsGreater (x ∷ xs) (y ∷ ys)
  further : (x : ℕ) {xs ys : NodeId} → IsGreater xs ys → IsGreater (x ∷ xs) (x ∷ ys)

IsGreater-greater_id :
    {a b : NodeId} → IsGreater a b → (greater_id a b ≡ true) × (greater_id b a ≡ false)
unfolding greater_id
IsGreater-greater_id (longer x xs) = (refl, refl)
IsGreater-greater_id (first x y xs ys l) = (ground (arith, l), ground (arith, l))
IsGreater-greater_id (further x g) =
    let ih = IsGreater-greater_id g in (ground (arith, ih.0), ground (arith, ih.1))

-- A racing side completes with its arbitration, or aborts.
on_request-racing :
    (req : HandshakeRequest) (bootstrap : Bool) (facts : AttachFacts) (m : HandshakeFsm)
    → racing_outbound m ≡ true
    → m.complete_emitted ≡ false
    → (on_request req bootstrap facts m).1.action ≡ complete
    → (on_request req bootstrap facts m).1.dedup ≡ arbitrate_dedup (keep_claims req m)
unfolding on_request resolve_inbound complete_inbound racing_outbound abort_result keep_claims
    arbitrate_dedup
on_request-racing req bootstrap facts m race fresh done = ground arith

IsGreater-total : (a b : NodeId) → a ≢ b → IsGreater a b ⊎ IsGreater b a
IsGreater-total [] [] h = absurd (h refl)
IsGreater-total [] (y ∷ ys) h = inr (longer y ys)
IsGreater-total (x ∷ xs) [] h = inl (longer x xs)
IsGreater-total (x ∷ xs) (y ∷ ys) h = elim (ℕ_discrete x y) [
  | yes e ↦ elim (IsGreater-total xs ys (λ q. h (ap₂ cons e q))) [
    | inl g ↦ inl (subst (λ t. IsGreater (x ∷ xs) (t ∷ ys)) e (further x g))
    | inr g ↦ inr (subst (λ t. IsGreater (t ∷ ys) (x ∷ xs)) e (further x g))
  ]
  | no ne ↦ elim (Bool-cases (ltb x y)) [
    | inl less ↦ inr (first y x ys xs (ground (arith, less)))
    | inr more ↦ inl (first x y xs ys (ground (arith, more, ne)))
  ]
]

arbitrate_dedup-keep_claims :
    (req : HandshakeRequest) (m : HandshakeFsm) (greater : Bool)
    → greater_id m.cfg.self_id req.id ≡ greater
    → arbitrate_dedup (keep_claims req m) ≡ (if greater then keep_outbound else keep_inbound)
unfolding arbitrate_dedup keep_claims
arbitrate_dedup-keep_claims req m greater e = ap (λ t. if t then keep_outbound else keep_inbound) e

-- When two nodes with distinct ids are both dialing each other, neither has completed, and each
-- completes on the request of the other, the node with the greater id keeps its outbound
-- connection, and the other one keeps the inbound one that this is.
pub on_request-survivor :
    (a b : HandshakeFsm) (of_a of_b : HandshakeRequest) (boot_a boot_b : Bool)
    (facts_a facts_b : AttachFacts)
    → of_a.id ≡ a.cfg.self_id
    → of_b.id ≡ b.cfg.self_id
    → a.cfg.self_id ≢ b.cfg.self_id
    → racing_outbound a ≡ true
    → racing_outbound b ≡ true
    → a.complete_emitted ≡ false
    → b.complete_emitted ≡ false
    → (on_request of_b boot_a facts_a a).1.action ≡ complete
    → (on_request of_a boot_b facts_b b).1.action ≡ complete
    → (IsGreater a.cfg.self_id b.cfg.self_id
        × ((on_request of_b boot_a facts_a a).1.dedup ≡ keep_outbound)
        × ((on_request of_a boot_b facts_b b).1.dedup ≡ keep_inbound))
      ⊎ (IsGreater b.cfg.self_id a.cfg.self_id
          × ((on_request of_b boot_a facts_a a).1.dedup ≡ keep_inbound)
          × ((on_request of_a boot_b facts_b b).1.dedup ≡ keep_outbound))
on_request-survivor a b of_a of_b boot_a boot_b facts_a facts_b ia ib ne ra rb fa fb da db =
    let ea = on_request-racing of_b boot_a facts_a a ra fa da in
    let eb = on_request-racing of_a boot_b facts_b b rb fb db in
    let at_a = ap (greater_id a.cfg.self_id) ib in
    let at_b = ap (greater_id b.cfg.self_id) ia in
    elim (IsGreater-total a.cfg.self_id b.cfg.self_id ne) [
      | inl g ↦
          let (is, not_is) = IsGreater-greater_id g in
          inl (
            g,
            ea ∙ arbitrate_dedup-keep_claims of_b a true (at_a ∙ is),
            eb ∙ arbitrate_dedup-keep_claims of_a b false (at_b ∙ not_is),
          )
      | inr g ↦
          let (is, not_is) = IsGreater-greater_id g in
          inr (
            g,
            ea ∙ arbitrate_dedup-keep_claims of_b a false (at_a ∙ not_is),
            eb ∙ arbitrate_dedup-keep_claims of_a b true (at_b ∙ is),
          )
    ]
