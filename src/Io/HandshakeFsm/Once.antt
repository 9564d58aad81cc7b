-- ===== src/Io/HandshakeFsm/Once.antt =====
-- How often a handshake completes.
use plexus.Common.{ℕ, ◌+◌, ◌≤◌, ◌≡◌, refl, arith, Bool, true}
use plexus.Common.{List, [], ◌∷◌, if◌then◌else◌, All, Bool-cases, Option-cases, inl, inr, ◌≢◌}
use plexus.Io.HandshakeFsm.{
  HandshakeFsm, HandshakeStatus, resolve_response, FsmStepResult, HandshakeOutcome,
  HandshakeRequest, HandshakeResponse, AttachFacts, Call,
}
use plexus.Io.HandshakeFsm.{
  handshake_resolved, complete, abort, dial_started, outbound_connected, timeout, external_complete,
  torn_down, request, response,
}
use plexus.Io.HandshakeFsm.{
  on_dial_started, on_outbound_connected, on_timeout, on_external_complete, on_request, on_response,
}
use plexus.Io.HandshakeFsm.{
  resolve_inbound, resolve_outbound, racing_outbound, complete_inbound, abort_result, refusal,
  keep_claims, answer, answers, is_version_compatible, reject_version, reject_identity,
  identity_conflict, version_incompatible, rejected_unknown, unauthorized, accepted,
}

-- A completed handshake stays in its last state.
unfoldable pub IsLatched : HandshakeFsm → Type 0
IsLatched m = m.complete_emitted ≡ true → m.state ≡ handshake_resolved

-- Whether the call emitted `complete`, and whether it had a right to.
pub emitted : HandshakeFsm → ℕ
emitted m = if m.complete_emitted then 1 else 0

pub completes_of : FsmStepResult → ℕ
completes_of r = elim r.action [ complete ↦ 1 | _ ↦ 0 ]

pub completes : List FsmStepResult → ℕ
unfolding completes_of
completes [] = 0
completes (r ∷ rs) = completes_of r + completes rs

-- A step that does not abort keeps the latch, and counts its completion there.
pub Counts : HandshakeFsm → HandshakeFsm × FsmStepResult → Type 0
Counts m (m', r) =
    (IsLatched m → r.action ≢ abort → IsLatched m')
    × (IsLatched m → emitted m + completes_of r ≤ emitted m')

latch_abort :
    (m m' : HandshakeFsm) (o : HandshakeOutcome)
    → m'.complete_emitted ≡ m.complete_emitted
    → Counts m (abort_result o m')
unfolding abort_result Counts emitted completes_of
latch_abort m m' o e = ((λ l na. absurd (na refl)), (λ l. rw e (omega arith)))

on_dial_started-Counts : (m : HandshakeFsm) → Counts m (on_dial_started m)
unfolding on_dial_started Counts emitted completes_of IsLatched
on_dial_started-Counts m = ground arith

on_outbound_connected-Counts : (m : HandshakeFsm) → Counts m (on_outbound_connected m)
unfolding on_outbound_connected Counts emitted completes_of IsLatched
on_outbound_connected-Counts m = ground arith

on_timeout-Counts : (m : HandshakeFsm) → Counts m (on_timeout m)
unfolding on_timeout Counts emitted completes_of IsLatched
on_timeout-Counts m = ground arith

on_external_complete-Counts : (m : HandshakeFsm) → Counts m (on_external_complete m)
unfolding on_external_complete Counts emitted completes_of IsLatched
on_external_complete-Counts m = ground arith

resolve_inbound-Counts : (b : Bool) (m : HandshakeFsm) → Counts m (resolve_inbound b m)
unfolding resolve_inbound racing_outbound complete_inbound Counts emitted completes_of IsLatched
resolve_inbound-Counts b m = ground arith

resolve_outbound-Counts : (m : HandshakeFsm) → Counts m (resolve_outbound m)
unfolding resolve_outbound racing_outbound Counts emitted completes_of IsLatched
resolve_outbound-Counts m = ground arith

-- Keeping the peer's claims does not touch the latch.
Counts-kept :
    (req : HandshakeRequest) (m : HandshakeFsm) (s : HandshakeFsm × FsmStepResult)
    → Counts (keep_claims req m) s
    → Counts m s
unfolding keep_claims Counts emitted IsLatched
Counts-kept req m s c = c

on_request-Counts :
    (req : HandshakeRequest) (b : Bool) (facts : AttachFacts) (m : HandshakeFsm)
    → Counts m (on_request req b facts m)
unfolding on_request
on_request-Counts req b facts m =
    let k = keep_claims req m in
    let kept = Counts-kept req m in
    elim (Option-cases (refusal k req.protocol_version facts)) [
      | inr (reason, e) ↦
          rw (e, on_request) (kept (abort_result reason k) (latch_abort k k reason refl))
      | inl e ↦
          rw (e, on_request)
            (elim (Bool-cases (is_version_compatible k req.version_major req.version_minor)) [
              | inl v ↦ rw (v, on_request) (kept (resolve_inbound b k) (resolve_inbound-Counts b k))
              | inr v ↦
                  rw (v, on_request)
                    (kept (abort_result reject_version k) (latch_abort k k reject_version refl))
            ])
    ]

resolve_response-Counts :
    (status : HandshakeStatus) (prefix : HandshakeRequest) (k : HandshakeFsm)
    → Counts k (resolve_response status prefix k)
unfolding resolve_response
resolve_response-Counts accepted prefix k =
    elim (Bool-cases (is_version_compatible k prefix.version_major prefix.version_minor)) [
      | inl v ↦ rw v (resolve_outbound-Counts k)
      | inr v ↦ rw v (latch_abort k k reject_version refl)
    ]
resolve_response-Counts identity_conflict prefix k = latch_abort k k reject_identity refl
resolve_response-Counts version_incompatible prefix k = latch_abort k k reject_version refl
resolve_response-Counts rejected_unknown prefix k = latch_abort k k reject_version refl
resolve_response-Counts unauthorized prefix k = latch_abort k k reject_version refl

on_response-Counts :
    (resp : HandshakeResponse) (facts : AttachFacts) (m : HandshakeFsm)
    → Counts m (on_response resp facts m)
unfolding on_response
on_response-Counts resp facts m =
    let k = keep_claims resp.prefix m in
    let kept = Counts-kept resp.prefix m in
    elim (Option-cases (refusal k resp.prefix.protocol_version facts)) [
      | inr (reason, e) ↦
          rw (e, on_response) (kept (abort_result reason k) (latch_abort k k reason refl))
      | inl e ↦
          rw (e, on_response)
            (kept (resolve_response resp.status resp.prefix k)
              (resolve_response-Counts resp.status resp.prefix k))
    ]

answer-Counts : (c : Call) (m : HandshakeFsm) → c ≢ torn_down → Counts m (answer c m)
unfolding answer
answer-Counts dial_started m h = on_dial_started-Counts m
answer-Counts outbound_connected m h = on_outbound_connected-Counts m
answer-Counts timeout m h = on_timeout-Counts m
answer-Counts external_complete m h = on_external_complete-Counts m
answer-Counts torn_down m h = absurd (h refl)
answer-Counts (request req b facts) m h = on_request-Counts req b facts m
answer-Counts (response resp facts) m h = on_response-Counts resp facts m

counted :
    (cs : List Call) (m : HandshakeFsm)
    → IsLatched m
    → All (λ c. c ≢ torn_down) cs
    → All (λ r. r.action ≢ abort) (answers cs m).1
    → emitted m + completes (answers cs m).1 ≤ emitted (answers cs m).0
unfolding answers completes Counts
counted [] m l nt na = omega arith
counted (c ∷ cs) m l (t, nt) (a, na) =
    let (keeps, counts) = answer-Counts c m t in
    omega (arith, counts l, counted cs (answer c m).0 (keeps l a) nt na)

emitted-le : (m : HandshakeFsm) → emitted m ≤ 1
unfolding emitted
emitted-le m = ground arith

-- From a state whose latch is sound, a sequence of calls with no tear-down among them and no abort
-- among their results completes the handshake at most once.
pub answers-complete_once :
    (cs : List Call) (m : HandshakeFsm)
    → IsLatched m
    → All (λ c. c ≢ torn_down) cs
    → All (λ r. r.action ≢ abort) (answers cs m).1
    → completes (answers cs m).1 ≤ 1
answers-complete_once cs m l nt na =
    omega (arith, counted cs m l nt na, emitted-le (answers cs m).0)
