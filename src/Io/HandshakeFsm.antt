-- ===== src/Io/HandshakeFsm.antt =====
-- lib/plexus-core/include/plexus/io/handshake_protocol.h and handshake_fsm.h: the handshake of one
-- peer, a state machine that moves no bytes.
pub mod Once
pub mod Admission
pub mod Arbitration
unfoldable pub use plexus.Wire.Handshake.{k_protocol_version}
pub use plexus.Wire.Handshake.{HandshakeStatus, HandshakeRequest, HandshakeResponse}
pub use plexus.Wire.Handshake.{
  accepted, version_incompatible, identity_conflict, rejected_unknown, unauthorized,
}
use plexus.Common.{ℕ, zero, suc, Bool, true, false, not, ◌&&◌, ◌||◌, Option, none, some}
use plexus.Common.{List, [], ◌∷◌, ltb, leb, ◌==◌, if◌then◌else◌}

-- `std::array<std::byte, 16>`, with its equality and its lexicographic order.
abbrev pub NodeId : Type 0
NodeId = List ℕ

unfoldable pub same_id : NodeId → NodeId → Bool
same_id [] [] = true
same_id [] (y ∷ ys) = false
same_id (x ∷ xs) [] = false
same_id (x ∷ xs) (y ∷ ys) = (x == y) && same_id xs ys

unfoldable pub greater_id : NodeId → NodeId → Bool
greater_id [] ys = false
greater_id (x ∷ xs) [] = true
greater_id (x ∷ xs) (y ∷ ys) = (ltb y x) || ((x == y) && greater_id xs ys)

pub data AttachRole : Type 0 where
  initiator responder : AttachRole

pub record AttachFacts : Type 0 where
  pub key_id : List ℕ
  pub initiator_id : NodeId
  pub responder_id : NodeId
  pub peer_nonce : List ℕ
  pub own_nonce : List ℕ
  pub transcript_digest : List ℕ
  pub role : AttachRole
  pub proof : List ℕ

pub data PeerFsmState : Type 0 where
  not_connected dialing handshaking handshake_resolved : PeerFsmState

pub data FsmAction : Type 0 where
  no_action send_request send_response complete retry abort : FsmAction

pub data HandshakeOutcome : Type 0 where
  no_outcome accept_outbound accept_inbound : HandshakeOutcome
  reject_version reject_identity reject_unauthorized : HandshakeOutcome

pub data DedupDecision : Type 0 where
  no_dedup keep_outbound keep_inbound : DedupDecision

pub record FsmStepResult : Type 0 where
  pub action : FsmAction
  pub outcome : HandshakeOutcome
  pub dedup : DedupDecision

-- The injected policy is its `decide`, or the null pointer.
pub record HandshakeFsmConfig : Type 0 where
  pub self_id : NodeId
  pub version_major : ℕ
  pub version_minor : ℕ
  pub compatible_version_major : ℕ
  pub compatible_version_minor : ℕ
  pub local_fingerprint : ℕ
  pub attach_policy : Option (AttachFacts → Bool)
  pub handshake_retry : ℕ

pub record HandshakeFsm : Type 0 where
  pub peer_id : NodeId
  pub inbound_pending : Bool
  pub state : PeerFsmState
  pub complete_emitted : Bool
  pub cfg : HandshakeFsmConfig
  pub peer_fingerprint : ℕ
  pub last_seen_their_protocol_version : ℕ
  pub handshake_retry_remaining : ℕ

abbrev no_id : NodeId
no_id = 0 ∷ 0 ∷ 0 ∷ 0 ∷ 0 ∷ 0 ∷ 0 ∷ 0 ∷ 0 ∷ 0 ∷ 0 ∷ 0 ∷ 0 ∷ 0 ∷ 0 ∷ 0 ∷ []

unfoldable pub handshake_fsm : HandshakeFsmConfig → HandshakeFsm
handshake_fsm cfg = record {
  peer_id = no_id;
  inbound_pending = false;
  state = not_connected;
  complete_emitted = false;
  cfg = cfg;
  peer_fingerprint = 0;
  last_seen_their_protocol_version = 0;
  handshake_retry_remaining = cfg.handshake_retry;
}

abbrev Step : Type 0
Step = HandshakeFsm × FsmStepResult

abbrev result : FsmAction → HandshakeOutcome → DedupDecision → FsmStepResult
result action outcome dedup = record { action = action; outcome = outcome; dedup = dedup }

abbrev nothing : FsmStepResult
nothing = result no_action no_outcome no_dedup

unfoldable pub on_dial_started : HandshakeFsm → Step
on_dial_started m = elim m.state [
  | not_connected ↦ (record m { state = dialing }, nothing)
  | dialing ↦ (record m { state = dialing }, nothing)
  | _ ↦ (m, nothing)
]

unfoldable pub on_outbound_connected : HandshakeFsm → Step
on_outbound_connected m = elim m.state [
  | handshaking ↦ (m, nothing)
  | handshake_resolved ↦ (m, nothing)
  | _ ↦ (record m { state = handshaking }, result send_request no_outcome no_dedup)
]

unfoldable pub arbitrate_dedup : HandshakeFsm → DedupDecision
arbitrate_dedup m = if greater_id m.cfg.self_id m.peer_id then keep_outbound else keep_inbound

unfoldable pub is_version_compatible : HandshakeFsm → ℕ → ℕ → Bool
is_version_compatible m peer_major peer_minor =
    ltb m.cfg.compatible_version_major peer_major
    || ((peer_major == m.cfg.compatible_version_major)
        && leb m.cfg.compatible_version_minor peer_minor)

unfoldable pub abort_result : HandshakeOutcome → HandshakeFsm → Step
abort_result reason m = (record m { state = not_connected }, result abort reason no_dedup)

unfoldable pub racing_outbound : HandshakeFsm → Bool
racing_outbound m = elim m.state [ handshaking ↦ true | handshake_resolved ↦ true | _ ↦ false ]

unfoldable pub complete_inbound : DedupDecision → HandshakeFsm → Step
complete_inbound dedup m = (
  record m { state = handshake_resolved; complete_emitted = true },
  result complete accept_inbound dedup,
)

unfoldable pub resolve_inbound : Bool → HandshakeFsm → Step
resolve_inbound inbound_is_bootstrap m =
    let m = record m { inbound_pending = true } in
    if racing_outbound m
    then if m.complete_emitted
      then (m, result send_response accept_inbound no_dedup)
      else complete_inbound (arbitrate_dedup m) m
    else if inbound_is_bootstrap
    then complete_inbound no_dedup m
    else (record m { state = handshake_resolved }, result send_response accept_inbound no_dedup)

unfoldable pub resolve_outbound : HandshakeFsm → Step
resolve_outbound m =
    if not (racing_outbound m)
    then (m, nothing)
    else if m.complete_emitted
    then (m, nothing)
    else let dedup = if m.inbound_pending then arbitrate_dedup m else no_dedup in
      (
        record m { state = handshake_resolved; complete_emitted = true },
        result complete accept_outbound dedup,
      )

-- What `validate` refuses, after it has kept the peer's id and fingerprint.
unfoldable pub refusal : HandshakeFsm → ℕ → AttachFacts → Option HandshakeOutcome
refusal m protocol_version facts =
    if not (protocol_version == k_protocol_version)
    then some reject_version
    else if same_id m.peer_id m.cfg.self_id
    then some reject_identity
    else elim m.cfg.attach_policy [
      | none ↦ none
      | some decide ↦ if decide facts then none else some reject_unauthorized
    ]

-- The peer's claims are kept before any of them is checked.
unfoldable pub keep_claims : HandshakeRequest → HandshakeFsm → HandshakeFsm
keep_claims msg m = record m {
  last_seen_their_protocol_version = msg.protocol_version;
  peer_id = msg.id;
  peer_fingerprint = msg.fingerprint;
}

unfoldable pub on_request : HandshakeRequest → Bool → AttachFacts → HandshakeFsm → Step
on_request req inbound_is_bootstrap facts m =
    let m = keep_claims req m in
    elim (refusal m req.protocol_version facts) [
      | some reason ↦ abort_result reason m
      | none ↦
          if not (is_version_compatible m req.version_major req.version_minor)
          then abort_result reject_version m
          else resolve_inbound inbound_is_bootstrap m
    ]

-- What a response that is not refused does, by its status.
unfoldable pub resolve_response : HandshakeStatus → HandshakeRequest → HandshakeFsm → Step
resolve_response accepted prefix m =
    if not (is_version_compatible m prefix.version_major prefix.version_minor)
    then abort_result reject_version m
    else resolve_outbound m
resolve_response identity_conflict prefix m = abort_result reject_identity m
resolve_response version_incompatible prefix m = abort_result reject_version m
resolve_response rejected_unknown prefix m = abort_result reject_version m
resolve_response unauthorized prefix m = abort_result reject_version m

unfoldable pub on_response : HandshakeResponse → AttachFacts → HandshakeFsm → Step
on_response resp facts m =
    let m = keep_claims resp.prefix m in
    elim (refusal m resp.prefix.protocol_version facts) [
      | some reason ↦ abort_result reason m
      | none ↦ resolve_response resp.status resp.prefix m
    ]

unfoldable pub on_timeout : HandshakeFsm → Step
on_timeout m = elim m.state [
  | handshaking ↦ elim m.handshake_retry_remaining [
    | suc left ↦
        (record m { handshake_retry_remaining = left }, result send_request no_outcome no_dedup)
    | zero ↦ (record m { state = not_connected }, result abort no_outcome no_dedup)
  ]
  | dialing ↦ (m, result retry no_outcome no_dedup)
  | _ ↦ (m, nothing)
]

unfoldable pub on_external_complete : HandshakeFsm → Step
on_external_complete m = if m.complete_emitted then (m, nothing) else (
  record m { state = handshake_resolved; complete_emitted = true },
  result complete accept_outbound no_dedup,
)

unfoldable pub on_torn_down : HandshakeFsm → Step
on_torn_down m = (
  record m {
    state = not_connected;
    inbound_pending = false;
    complete_emitted = false;
    handshake_retry_remaining = m.cfg.handshake_retry;
  },
  nothing,
)

-- The calls that a session makes, one constructor for each handler.
pub data Call : Type 0 where
  dial_started outbound_connected timeout external_complete torn_down : Call
  request : HandshakeRequest → Bool → AttachFacts → Call
  response : HandshakeResponse → AttachFacts → Call

unfoldable pub answer : Call → HandshakeFsm → Step
answer dial_started m = on_dial_started m
answer outbound_connected m = on_outbound_connected m
answer timeout m = on_timeout m
answer external_complete m = on_external_complete m
answer torn_down m = on_torn_down m
answer (request req bootstrap facts) m = on_request req bootstrap facts m
answer (response resp facts) m = on_response resp facts m

-- A sequence of calls, with the results in their order.
unfoldable pub answers : List Call → HandshakeFsm → HandshakeFsm × List FsmStepResult
answers [] m = (m, [])
answers (c ∷ cs) m = let (m, r) = answer c m in let (m, rs) = answers cs m in (m, r ∷ rs)
