-- ===== src/Wire/Subscribe/Layout.antt =====
-- The layout of a subscription's frame.
use plexus.Common.{
  ℕ, ◌≤◌, ◌<◌, ◌^◌, ◌≡◌, refl, sym, ap, ◌∙◌, arith, Bool, true, false, if◌then◌else◌,
}
use plexus.Common.{List, [], ◌∷◌, ◌++◌, length, length-append, drop, drop-append}
use plexus.Wire.ByteOrder.{be_bytes}
use plexus.Wire.ByteOrder.Swap.{length-be_bytes}
use plexus.Wire.Writer.Fill.{flatten}
use plexus.Wire.Subscribe.{SubscribeQosRegion, SubscribeRequest}

-- The words fit, and the strings are within the caps of the reader.
pub record IsQosRegion (q : SubscribeQosRegion) : Type 0 where
  pub replay_depth_fits : q.replay_depth < 2 ^ 32
  pub deadline_fits : q.requested_deadline_ns < 2 ^ 64
  pub lease_fits : q.requested_lease_ns < 2 ^ 64
  pub max_message_fits : q.requested_max_message_bytes < 2 ^ 32

pub record IsSubscribeRequest (r : SubscribeRequest) : Type 0 where
  pub fqn_short : length r.fqn ≤ 1024
  pub type_name_short : length r.type_name ≤ 512
  pub topic_hash_fits : r.topic_hash < 2 ^ 64
  pub type_hash_fits : r.type_hash < 2 ^ 64
  pub qos_fits : IsQosRegion r.qos

abbrev pub qos_fields : SubscribeQosRegion → List (List ℕ)
qos_fields q =
    (q.durability ∷ [])
    ∷ (q.delivery_mode ∷ [])
    ∷ be_bytes 4 q.replay_depth
    ∷ (q.requested_flags ∷ [])
    ∷ be_bytes 8 q.requested_deadline_ns
    ∷ be_bytes 8 q.requested_lease_ns
    ∷ (q.requested_priority ∷ [])
    ∷ be_bytes 4 q.requested_max_message_bytes
    ∷ (0 ∷ [])
    ∷ (0 ∷ [])
    ∷ []

-- The same without the last one.
abbrev pub qos_init : SubscribeQosRegion → List (List ℕ)
qos_init q =
    (q.durability ∷ [])
    ∷ (q.delivery_mode ∷ [])
    ∷ be_bytes 4 q.replay_depth
    ∷ (q.requested_flags ∷ [])
    ∷ be_bytes 8 q.requested_deadline_ns
    ∷ be_bytes 8 q.requested_lease_ns
    ∷ (q.requested_priority ∷ [])
    ∷ be_bytes 4 q.requested_max_message_bytes
    ∷ (0 ∷ [])
    ∷ []

abbrev pub head_init : SubscribeRequest → List (List ℕ)
head_init r =
    be_bytes 8 r.topic_hash
    ∷ be_bytes 8 r.type_hash
    ∷ (r.source ∷ [])
    ∷ be_bytes 2 (length r.fqn)
    ∷ r.fqn
    ∷ be_bytes 2 (length r.type_name)
    ∷ []

abbrev pub head_fields : SubscribeRequest → List (List ℕ)
head_fields r =
    be_bytes 8 r.topic_hash
    ∷ be_bytes 8 r.type_hash
    ∷ (r.source ∷ [])
    ∷ be_bytes 2 (length r.fqn)
    ∷ r.fqn
    ∷ be_bytes 2 (length r.type_name)
    ∷ r.type_name
    ∷ []

-- What follows the head.
abbrev pub qos_tail : Bool → SubscribeQosRegion → List (List ℕ)
qos_tail false q = []
qos_tail true q = be_bytes 2 30 ∷ qos_fields q

abbrev pub subscribe_layout : SubscribeRequest → List ℕ
subscribe_layout r = flatten (head_fields r) ++ flatten (qos_tail r.has_qos r.qos)

pub length-qos_fields : (q : SubscribeQosRegion) → length (flatten (qos_fields q)) ≡ 30
length-qos_fields q = simp (length-append, length-be_bytes)

pub length-qos_tail :
    (b : Bool) (q : SubscribeQosRegion) → length (flatten (qos_tail b q)) ≡ (if b then 32 else 0)
length-qos_tail false q = refl
length-qos_tail true q = omega (
  arith,
  length-append (be_bytes 2 30) (flatten (qos_fields q)),
  length-be_bytes 2 30,
  length-qos_fields q,
)

pub drop_past : (n : ℕ) (front back : List ℕ) → length front ≡ n → drop n (front ++ back) ≡ back
drop_past n front back e = ap (λ k. drop k (front ++ back)) (sym e) ∙ drop-append front back
