-- ===== src/Io/HandshakeFsm/Admission.antt =====
-- Whom the handshake admits, and when it gives up.
use plexus.Common.{
  ℕ, zero, suc, ◌<◌, ◌≤◌, ◌≡◌, refl, sym, ap, ◌∙◌, arith, Bool, true, false, none, some,
}
use plexus.Common.{
  List, [], ◌∷◌, ◌++◌, replicate, ◌==◌, ==_iff, Bool-cases, Option-cases, ◌⊎◌, inl, inr, ◌≢◌, ◌↔◌,
}
use mathlib.Core.Path.{ap₂}
use plexus.Io.HandshakeFsm.{
  HandshakeStatus, HandshakeOutcome, HandshakeFsm, NodeId, HandshakeRequest, HandshakeResponse,
  AttachFacts, Call, timeout, handshaking,
}
use plexus.Io.HandshakeFsm.{
  same_id, racing_outbound, complete, abort, complete_inbound, on_request, on_response, on_timeout,
}
use plexus.Io.HandshakeFsm.{
  keep_claims, refusal, is_version_compatible, resolve_inbound, resolve_outbound, resolve_response,
}
use plexus.Io.HandshakeFsm.{
  abort_result, reject_version, k_protocol_version, accepted, not_connected, send_request, answers,
  answer,
}
use plexus.Io.HandshakeFsm.{FsmStepResult, FsmAction, no_outcome, no_dedup}

abbrev cons : ℕ → NodeId → NodeId
cons x xs = x ∷ xs

same_id_lem : (a b : NodeId) → same_id a b ≡ true → a ≡ b
unfolding same_id
same_id_lem [] [] h = refl
same_id_lem [] (y ∷ ys) h = ground arith
same_id_lem (x ∷ xs) [] h = ground arith
same_id_lem (x ∷ xs) (y ∷ ys) h = elim (Bool-cases (x == y)) [
  | inl e ↦ ap₂ cons ((==_iff x y).0 e) (same_id_lem xs ys (ground arith))
  | inr e ↦ ground arith
]

same_id_refl : (a : NodeId) → same_id a a ≡ true
unfolding same_id
same_id_refl [] = refl
same_id_refl (x ∷ xs) = rw ((==_iff x x).1 refl, same_id_refl xs) refl

-- A peer that the configuration of `m` lets in: the protocol is the same, the peer is another
-- node, the policy agrees, and the version is not below the oldest compatible one.
pub record IsAdmitted (m : HandshakeFsm) (msg : HandshakeRequest) (facts : AttachFacts)
    : Type 0 where
  pub same_protocol : msg.protocol_version ≡ k_protocol_version
  pub other_node : msg.id ≢ m.cfg.self_id
  pub agreed :
      (decide : AttachFacts → Bool) → m.cfg.attach_policy ≡ some decide → decide facts ≡ true
  pub recent :
      (m.cfg.compatible_version_major < msg.version_major)
      ⊎ ((msg.version_major ≡ m.cfg.compatible_version_major)
          × (m.cfg.compatible_version_minor ≤ msg.version_minor))

module _ (m : HandshakeFsm) (msg : HandshakeRequest) (facts : AttachFacts) where
  abbrev claimed : HandshakeFsm
  claimed = keep_claims msg m

  passes→IsAdmitted :
      refusal claimed msg.protocol_version facts ≡ none
      → is_version_compatible claimed msg.version_major msg.version_minor ≡ true
      → IsAdmitted m msg facts
  unfolding keep_claims refusal is_version_compatible
  passes→IsAdmitted e v = record {
    same_protocol = ground arith;
    other_node = λ same.
        let r : same_id msg.id m.cfg.self_id ≡ true = rw same (same_id_refl m.cfg.self_id) in
        ground arith;
    agreed = λ decide p. ground arith;
    recent = ground arith;
  }

  IsAdmitted→allowed : IsAdmitted m msg facts → refusal claimed msg.protocol_version facts ≡ none
  unfolding keep_claims refusal
  IsAdmitted→allowed a =
      let p = a.same_protocol in
      let n : same_id msg.id m.cfg.self_id ≢ true =
        λ s. a.other_node (same_id_lem msg.id m.cfg.self_id s) in
      elim (Option-cases m.cfg.attach_policy) [
        | inl e ↦ ground arith
        | inr (decide, e) ↦ let d = a.agreed decide e in ground arith
      ]

  IsAdmitted→compatible :
      IsAdmitted m msg facts
      → is_version_compatible claimed msg.version_major msg.version_minor ≡ true
  unfolding keep_claims is_version_compatible
  IsAdmitted→compatible a = let r = a.recent in ground arith

abort_aborts : (o : HandshakeOutcome) (m : HandshakeFsm) → (abort_result o m).1.action ≡ abort
unfolding abort_result
abort_aborts o m = refl

abort_no_complete :
    (o : HandshakeOutcome) (m : HandshakeFsm) → (abort_result o m).1.action ≢ complete
unfolding abort_result
abort_no_complete o m e = ground arith

resolve_inbound-goes : (b : Bool) (m : HandshakeFsm) → (resolve_inbound b m).1.action ≢ abort
unfolding resolve_inbound complete_inbound
resolve_inbound-goes b m e = ground arith

resolve_outbound-goes : (m : HandshakeFsm) → (resolve_outbound m).1.action ≢ abort
unfolding resolve_outbound
resolve_outbound-goes m e = ground arith

-- A request is answered by something other than an abort exactly when its sender is admitted: it
-- speaks the same protocol, is another node, satisfies the policy, and is recent enough.
pub on_request-IsAdmitted :
    (req : HandshakeRequest) (bootstrap : Bool) (facts : AttachFacts) (m : HandshakeFsm)
    → ((on_request req bootstrap facts m).1.action ≢ abort) ↔ IsAdmitted m req facts
unfolding on_request
on_request-IsAdmitted req bootstrap facts m =
    let k = keep_claims req m in
    (
      λ goes. elim (Option-cases (refusal k req.protocol_version facts)) [
        | inr (reason, e) ↦ absurd (goes (rw (e, on_request) (abort_aborts reason k)))
        | inl e ↦ elim (Bool-cases (is_version_compatible k req.version_major req.version_minor)) [
          | inl v ↦ passes→IsAdmitted m req facts e v
          | inr v ↦ absurd (goes (rw (e, v, on_request) (abort_aborts reject_version k)))
        ]
      ],
      λ a.
          rw (IsAdmitted→allowed m req facts a, IsAdmitted→compatible m req facts a, on_request)
            (resolve_inbound-goes bootstrap k),
    )

resolve_response-complete :
    (status : HandshakeStatus) (prefix : HandshakeRequest) (k : HandshakeFsm)
    → (resolve_response status prefix k).1.action ≡ complete
    → (status ≡ accepted)
      × (is_version_compatible k prefix.version_major prefix.version_minor ≡ true)
      × (racing_outbound k ≡ true)
      × (k.complete_emitted ≡ false)
unfolding resolve_response resolve_outbound abort_result
resolve_response-complete status prefix k h = ground arith

resolve_response-accepted :
    (prefix : HandshakeRequest) (k : HandshakeFsm)
    → is_version_compatible k prefix.version_major prefix.version_minor ≡ true
    → racing_outbound k ≡ true
    → k.complete_emitted ≡ false
    → (resolve_response accepted prefix k).1.action ≡ complete
unfolding resolve_response resolve_outbound
resolve_response-accepted prefix k v r f = ground arith

abbrev action_of : HandshakeFsm × FsmStepResult → FsmAction
action_of s = s.1.action

module _ (resp : HandshakeResponse) (facts : AttachFacts) (m : HandshakeFsm) where
  abbrev answered : HandshakeFsm
  answered = keep_claims resp.prefix m

  passed :
      refusal answered resp.prefix.protocol_version facts ≡ none
      → on_response resp facts m ≡ resolve_response resp.status resp.prefix answered
  unfolding on_response
  passed e = rw (e, on_response) refl

  refused :
      (reason : HandshakeOutcome)
      → refusal answered resp.prefix.protocol_version facts ≡ some reason
      → on_response resp facts m ≡ abort_result reason answered
  unfolding on_response
  refused reason e = rw (e, on_response) refl

-- A response completes the handshake exactly when it says `accepted`, its sender is admitted, an
-- outbound connection is being shaken, and the handshake has not completed before.
pub on_response-complete :
    (resp : HandshakeResponse) (facts : AttachFacts) (m : HandshakeFsm)
    → ((on_response resp facts m).1.action ≡ complete) ↔ (
        (resp.status ≡ accepted)
        × IsAdmitted m resp.prefix facts
        × (racing_outbound m ≡ true)
        × (m.complete_emitted ≡ false))
unfolding keep_claims racing_outbound
on_response-complete resp facts m =
    let k = keep_claims resp.prefix m in
    (
      λ done. elim (Option-cases (refusal k resp.prefix.protocol_version facts)) [
        | inr (reason, e) ↦
            absurd (
              abort_no_complete reason k
                (ap action_of (sym (refused resp facts m reason e)) ∙ done))
        | inl e ↦
            let (s, v, r, f) =
              resolve_response-complete resp.status resp.prefix k
                (ap action_of (sym (passed resp facts m e)) ∙ done) in
            (s, passes→IsAdmitted m resp.prefix facts e v, r, f)
      ],
      λ (s, a, r, f).
          ap action_of (passed resp facts m (IsAdmitted→allowed m resp.prefix facts a))
          ∙ ap (λ t. (resolve_response t resp.prefix k).1.action) s
          ∙ resolve_response-accepted resp.prefix k (IsAdmitted→compatible m resp.prefix facts a) r
              f,
    )

-- The calls of a run of timeouts.
abbrev pub timeouts : ℕ → List Call
timeouts n = replicate n timeout

abbrev pub sends : ℕ → List FsmStepResult
sends n = replicate n (record { action = send_request; outcome = no_outcome; dedup = no_dedup })

-- With a budget of `n` retries, a handshake that gets no answer sends its request again `n` times,
-- and the next timeout aborts it and leaves the peer not connected.
pub answers-timeouts :
    (n : ℕ) (m : HandshakeFsm)
    → m.state ≡ handshaking
    → m.handshake_retry_remaining ≡ n
    → ((answers (timeouts (suc n)) m).1
        ≡ sends n ++ (record { action = abort; outcome = no_outcome; dedup = no_dedup } ∷ []))
      × ((answers (timeouts (suc n)) m).0.state ≡ not_connected)
unfolding answers answer on_timeout
answers-timeouts zero m h r = rw (h, r) (refl, refl)
answers-timeouts (suc n) m h r =
    let next = record m { state = handshaking; handshake_retry_remaining = n } in
    let (results, ended) = answers-timeouts n next refl refl in
    rw (h, r)
      (
        ap (λ rs. record { action = send_request; outcome = no_outcome; dedup = no_dedup } ∷ rs)
            results,
        ended,
      )
