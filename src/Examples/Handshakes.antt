-- ===== src/Examples/Handshakes.antt =====
-- The handshake at concrete inputs.
use plexus.Common.{
  suc, ◌≤◌, ◌≡◌, ◌≢◌, ◌↔◌, ◌⊎◌, refl, arith, true, false, List, [], ◌∷◌, ◌++◌, none,
}
use plexus.Io.HandshakeFsm.{
  HandshakeFsm, HandshakeFsmConfig, NodeId, HandshakeRequest, HandshakeResponse, AttachFacts, Call,
}
use plexus.Io.HandshakeFsm.{
  handshaking, not_connected, accepted, initiator, request, response, complete, abort, no_outcome,
  no_dedup, keep_outbound, keep_inbound,
}
use plexus.Io.HandshakeFsm.{
  on_request, on_response, keep_claims, refusal, is_version_compatible, resolve_inbound,
  resolve_outbound, resolve_response, racing_outbound, complete_inbound, arbitrate_dedup, same_id,
  answer, answers,
}
use plexus.Io.HandshakeFsm.Once.{IsLatched, completes, answers-complete_once}
use plexus.Io.HandshakeFsm.Admission.{
  IsAdmitted, timeouts, sends, on_request-IsAdmitted, on_response-complete, answers-timeouts,
}
use plexus.Io.HandshakeFsm.Arbitration.{IsGreater, on_request-survivor}

-- Two nodes, and the request that each sends.
abbrev config : NodeId → HandshakeFsmConfig
config id = record {
  self_id = id;
  version_major = 1;
  version_minor = 2;
  compatible_version_major = 1;
  compatible_version_minor = 0;
  local_fingerprint = 5;
  attach_policy = none;
  handshake_retry = 2;
}

abbrev low_id : NodeId
low_id = 1 ∷ 7 ∷ []

abbrev high_id : NodeId
high_id = 2 ∷ 7 ∷ []

-- A node that is shaking its outbound connection.
abbrev dialer : NodeId → HandshakeFsm
dialer id = record {
  peer_id = [];
  inbound_pending = false;
  state = handshaking;
  complete_emitted = false;
  cfg = config id;
  peer_fingerprint = 0;
  last_seen_their_protocol_version = 0;
  handshake_retry_remaining = 2;
}

abbrev request_of : NodeId → HandshakeRequest
request_of id = record {
  id = id;
  version_major = 1;
  version_minor = 2;
  compatible_version_major = 1;
  compatible_version_minor = 0;
  protocol_version = 7;
  fingerprint = 5;
  key_id = [];
  own_nonce = [];
  cipher_offer = 0;
  chosen_cipher = 0;
  proof = [];
}

abbrev response_of : NodeId → HandshakeResponse
response_of id = record { prefix = request_of id; status = accepted }

abbrev facts : AttachFacts
facts = record {
  key_id = [];
  initiator_id = low_id;
  responder_id = high_id;
  peer_nonce = [];
  own_nonce = [];
  transcript_digest = [];
  role = initiator;
  proof = [];
}

ids_apart : low_id ≢ high_id
ids_apart e = ground arith

abbrev calls : List Call
calls = request (request_of high_id) false facts ∷ response (response_of high_id) facts ∷ []

answers-complete_once_example : completes (answers calls (dialer low_id)).1 ≤ 1
unfolding answers answer on_request on_response keep_claims refusal is_version_compatible
    resolve_inbound racing_outbound complete_inbound arbitrate_dedup same_id resolve_response
    resolve_outbound IsLatched
answers-complete_once_example =
    answers-complete_once calls (dialer low_id) (λ e. ground arith)
      ((λ e. ground arith), ((λ e. ground arith), tt))
      ((λ e. ground arith), ((λ e. ground arith), tt))

on_request-survivor_example :
    (IsGreater low_id high_id
      × ((on_request (request_of high_id) false facts (dialer low_id)).1.dedup ≡ keep_outbound)
      × ((on_request (request_of low_id) false facts (dialer high_id)).1.dedup ≡ keep_inbound))
    ⊎ (IsGreater high_id low_id
        × ((on_request (request_of high_id) false facts (dialer low_id)).1.dedup ≡ keep_inbound)
        × ((on_request (request_of low_id) false facts (dialer high_id)).1.dedup ≡ keep_outbound))
unfolding on_request keep_claims refusal is_version_compatible resolve_inbound racing_outbound
    complete_inbound arbitrate_dedup same_id
on_request-survivor_example =
    on_request-survivor (dialer low_id) (dialer high_id) (request_of low_id) (request_of high_id)
      false false facts facts refl refl ids_apart refl refl refl refl refl refl

on_request-IsAdmitted_example :
    ((on_request (request_of high_id) true facts (dialer low_id)).1.action ≢ abort)
    ↔ IsAdmitted (dialer low_id) (request_of high_id) facts
on_request-IsAdmitted_example =
    on_request-IsAdmitted (request_of high_id) true facts (dialer low_id)

on_response-complete_example :
    ((on_response (response_of high_id) facts (dialer low_id)).1.action ≡ complete) ↔ (
      ((response_of high_id).status ≡ accepted)
      × IsAdmitted (dialer low_id) (response_of high_id).prefix facts
      × (racing_outbound (dialer low_id) ≡ true)
      × ((dialer low_id).complete_emitted ≡ false))
on_response-complete_example = on_response-complete (response_of high_id) facts (dialer low_id)

answers-timeouts_example :
    ((answers (timeouts (suc 2)) (dialer low_id)).1
      ≡ sends 2 ++ (record { action = abort; outcome = no_outcome; dedup = no_dedup } ∷ []))
    × ((answers (timeouts (suc 2)) (dialer low_id)).0.state ≡ not_connected)
answers-timeouts_example = answers-timeouts 2 (dialer low_id) refl refl
