-- ===== src/Wire/Subscribe/RoundTrip.antt =====
-- The frames of a subscription: what is written, and that it is read back.
use mathlib.Core.Path.{fun_ext}
use plexus.Common.{
  ℕ, ◌+◌, ◌%◌, ◌≤◌, ◌^◌, ◌≡◌, refl, sym, ap, ◌∙◌, arith, Bool, true, false, ltb, le→not_ltb, lt→ltb,
  if◌then◌else◌,
}
use plexus.Common.{
  Option, some, ◌>>=◌, List, [], ◌∷◌, ◌++◌, append-nil, length, length-append, length-replicate,
  drop, drop-append, drop-drop, length-drop, replicate,
}
use plexus.Wire.ByteOrder.{Endian, be_bytes, write_u16, read_u8, read_u64, read_u32}
use plexus.Wire.ByteOrder.Swap.{
  write_u16-be_bytes, write_u32-be_bytes, write_u64-be_bytes, read_u32-be_bytes, read_u64-be_bytes,
  length-be_bytes,
}
use plexus.Wire.LengthPrefixed.{w16, size_max}
use plexus.Wire.LengthPrefixed.Bounds.{read_length_prefixed-be_bytes}
use plexus.Wire.Writer.{Writer, writer}
use plexus.Wire.Writer
use plexus.Wire.Writer.Fill.{fill, fill_lem, fill_then, fill_then_bind, flatten, join, flatten-join}
use plexus.Wire.Subscribe.{
  SubscribeQosRegion, no_qos, SubscribeRequest, write_qos_region, write_subscribe_head,
  write_subscribe_qos, encode_subscribe_request,
}
use plexus.Wire.Subscribe.{
  read_qos_region, take_qos_region, read_subscribe_qos, read_capped, read_tail,
  decode_subscribe_request,
}
use plexus.Wire.Subscribe.Layout.{
  IsQosRegion, IsSubscribeRequest, drop_past, head_fields, head_init, length-qos_fields,
  length-qos_tail, qos_fields, qos_init, qos_tail, subscribe_layout,
}

module _ (host : Endian) (q : SubscribeQosRegion) (v : IsQosRegion q) where
  read_qos_region-fields : read_qos_region host (flatten (qos_fields q)) ≡ q
  unfolding read_qos_region be_bytes
  read_qos_region-fields =
      let region = flatten (qos_fields q) in
      let a : read_u32 host (drop 2 region) ≡ q.replay_depth =
        read_u32-be_bytes host q.replay_depth _ v.replay_depth_fits in
      let b : read_u64 host (drop 7 region) ≡ q.requested_deadline_ns =
        read_u64-be_bytes host q.requested_deadline_ns _ v.deadline_fits in
      let c : read_u64 host (drop 15 region) ≡ q.requested_lease_ns =
        read_u64-be_bytes host q.requested_lease_ns _ v.lease_fits in
      let d : read_u32 host (drop 24 region) ≡ q.requested_max_message_bytes =
        read_u32-be_bytes host q.requested_max_message_bytes _ v.max_message_fits in
      rw (a, b, c, d) refl

  write_qos_region-fields {ℓ} :
      {B : Type ℓ} (k : Writer → Option B) (w : Writer)
      → (write_qos_region host q w >>= k) ≡ fill_then (qos_fields q) k w
  unfolding write_qos_region
  write_qos_region-fields k w =
      rw
        (
          write_u32-be_bytes host q.replay_depth v.replay_depth_fits,
          write_u64-be_bytes host q.requested_deadline_ns v.deadline_fits,
          write_u64-be_bytes host q.requested_lease_ns v.lease_fits,
          write_u32-be_bytes host q.requested_max_message_bytes v.max_message_fits,
        )
        (fill_then_bind (qos_init q) (Writer.bytes (0 ∷ [])) k w)

write_u16_length : (host : Endian) (n : ℕ) → n ≤ 1024 → write_u16 host (n % 2 ^ 16) ≡ be_bytes 2 n
write_u16_length host n h =
    let e : n % 2 ^ 16 ≡ n = omega arith in
    ap (write_u16 host) e ∙ write_u16-be_bytes host n (omega arith)

module _ (host : Endian) (r : SubscribeRequest) (v : IsSubscribeRequest r) where
  write_subscribe_head-fields {ℓ} :
      {B : Type ℓ} (k : Writer → Option B) (w : Writer)
      → (write_subscribe_head host r w >>= k) ≡ fill_then (head_fields r) k w
  unfolding write_subscribe_head
  write_subscribe_head-fields k w =
      rw
        (
          write_u64-be_bytes host r.topic_hash v.topic_hash_fits,
          write_u64-be_bytes host r.type_hash v.type_hash_fits,
          write_u16_length host (length r.fqn) v.fqn_short,
          write_u16_length host (length r.type_name) (omega (arith, v.type_name_short)),
        )
        (fill_then_bind (head_init r) (Writer.bytes r.type_name) k w)

  write_subscribe_qos-tail :
      (w : Writer)
      → (write_subscribe_qos host r w >>= λ w. some w.region) ≡ fill (qos_tail r.has_qos r.qos) w
  unfolding write_subscribe_qos
  write_subscribe_qos-tail w = at r.has_qos
    where
      at :
          (b : Bool)
          → ((if b then (Writer.u16 host 30 w >>= write_qos_region host r.qos) else some w) >>= λ w.
              some w.region)
            ≡ fill (qos_tail b r.qos) w
      at false = refl
      at true = rw (write_u16_length host 30 (omega arith)) (
          fill_then_bind (be_bytes 2 30 ∷ []) (write_qos_region host r.qos) (λ w. some w.region) w
          ∙ ap (λ k. Writer.bytes (be_bytes 2 30) w >>= k)
              (fun_ext (write_qos_region-fields host r.qos v.qos_fits (λ w. some w.region))))

  length-layout :
      length (subscribe_layout r)
      ≡ 21 + length r.fqn + length r.type_name + length (flatten (qos_tail r.has_qos r.qos))
  length-layout = simp (length-append, length-be_bytes, append-nil) (omega arith)

  -- What the encoder writes.
  pub encode_subscribe_request-layout : encode_subscribe_request host r ≡ some (subscribe_layout r)
  unfolding encode_subscribe_request
  encode_subscribe_request-layout =
      let head = 17 + 2 + length r.fqn + 2 + length r.type_name in
      let region = replicate {A = ℕ} (if r.has_qos then head + (2 + 30) else head) 0 in
      let tail = qos_tail r.has_qos r.qos in
      let all : flatten (head_fields r ++ tail) ≡ subscribe_layout r =
        sym (flatten-join (head_fields r) (flatten tail)) in
      write_subscribe_head-fields (λ w. write_subscribe_qos host r w >>= λ w. some w.region)
        (writer region)
      ∙ ap (λ k. fill_then (head_fields r) k (writer region)) (fun_ext write_subscribe_qos-tail)
      ∙ fill_lem (head_fields r ++ tail) region (
          ap length all
          ∙ length-layout
          ∙ ground (
            arith,
            length-qos_tail r.has_qos r.qos,
            length-replicate {A = ℕ} (if r.has_qos then head + (2 + 30) else head) 0,
          ))
      ∙ ap some all

  -- Past the two strings.
  abbrev rest : List ℕ
  rest = flatten (qos_tail r.has_qos r.qos)

  abbrev layout : List ℕ
  layout = join (head_fields r) rest

  drop_17 :
      drop 17 layout
      ≡ be_bytes 2 (length r.fqn)
        ++ (r.fqn ++ (be_bytes 2 (length r.type_name) ++ (r.type_name ++ rest)))
  unfolding be_bytes
  drop_17 = refl

  fixed_fields :
      (read_u64 host layout ≡ r.topic_hash)
      × (read_u64 host (drop 8 layout) ≡ r.type_hash)
      × (read_u8 (drop 16 layout) ≡ r.source)
  unfolding be_bytes
  fixed_fields = (
    read_u64-be_bytes host r.topic_hash _ v.topic_hash_fits,
    read_u64-be_bytes host r.type_hash _ v.type_hash_fits,
    refl,
  )

  -- The strings, with what is left behind each.
  abbrev after_fqn : ℕ
  after_fqn = 19 + length r.fqn

  abbrev after_type_name : ℕ
  after_type_name = after_fqn + 2 + length r.type_name

  past_fqn : drop after_fqn layout ≡ be_bytes 2 (length r.type_name) ++ (r.type_name ++ rest)
  past_fqn =
      sym (drop-drop (length r.fqn) 19 layout)
      ∙ ap (drop (length r.fqn)) drop_19
      ∙ drop-append r.fqn (be_bytes 2 (length r.type_name) ++ (r.type_name ++ rest))
    where
      drop_19 : drop 19 layout ≡ r.fqn ++ (be_bytes 2 (length r.type_name) ++ (r.type_name ++ rest))
      drop_19 =
          sym (drop-drop 2 17 layout)
          ∙ ap (drop 2) drop_17
          ∙ drop_past 2 (be_bytes 2 (length r.fqn)) _ (length-be_bytes 2 (length r.fqn))

  past_type_name : drop after_type_name layout ≡ rest
  past_type_name =
      sym (drop-drop (length r.type_name) (after_fqn + 2) layout)
      ∙ ap (drop (length r.type_name)) (
          sym (drop-drop 2 after_fqn layout)
          ∙ ap (drop 2) past_fqn
          ∙ drop_past 2 (be_bytes 2 (length r.type_name)) _
              (length-be_bytes 2 (length r.type_name)))
      ∙ drop-append r.type_name rest

  same_layout : subscribe_layout r ≡ layout
  same_layout = flatten-join (head_fields r) rest

  length_total : length layout ≡ after_type_name + length rest
  length_total = omega (arith, ap length same_layout, length-layout)

  short : length layout ≤ size_max
  short =
      ground (arith, length_total, length-qos_tail r.has_qos r.qos, v.fqn_short, v.type_name_short)

  read_fqn : read_capped host 1024 layout 17 ≡ some (r.fqn, after_fqn)
  unfolding read_capped
  read_fqn =
      let read =
        read_length_prefixed-be_bytes host w16 layout 17 (length r.fqn) 1 r.fqn _
          (omega (arith, v.fqn_short)) (omega arith) short drop_17 in
      rw read (ground (arith, v.fqn_short))

  read_type_name : read_capped host 512 layout after_fqn ≡ some (r.type_name, after_type_name)
  unfolding read_capped
  read_type_name =
      let read =
        read_length_prefixed-be_bytes host w16 layout after_fqn (length r.type_name) 1 r.type_name _
          (omega (arith, v.type_name_short)) (omega arith) short past_fqn in
      rw read (ground (arith, v.type_name_short))

-- The request with its region, or with the default where it has none.
abbrev pub with_qos : Bool → SubscribeQosRegion → SubscribeRequest → SubscribeRequest
with_qos b q r = record r { has_qos = b; qos = if b then q else no_qos }

read_tail-qos_tail :
    (host : Endian) (payload : List ℕ) (consumed : ℕ) (q : SubscribeQosRegion)
    (r : SubscribeRequest) (b : Bool)
    → IsQosRegion q
    → length payload ≤ size_max
    → drop consumed payload ≡ flatten (qos_tail b q)
    → read_tail host payload consumed (with_qos false q r) ≡ some (with_qos b q r)
unfolding read_tail read_subscribe_qos take_qos_region
read_tail-qos_tail host payload consumed q r false v short d =
    rw
      (le→not_ltb consumed (length payload)
        (omega (arith, ap length d, length-drop consumed payload)))
      refl
read_tail-qos_tail host payload consumed q r true v short d =
    let region = flatten (qos_fields q) in
    let size = length-qos_fields q in
    let more : ltb consumed (length payload) ≡ true =
      lt→ltb consumed (length payload)
        (omega (arith, ap length d, length-drop consumed payload, length-qos_tail true q)) in
    let read =
      read_length_prefixed-be_bytes host w16 payload consumed 30 1 region [] (omega arith)
        (omega (arith, size)) short (d ∙ ap (λ t. be_bytes 2 30 ++ t) (sym (append-nil region))) in
    rw (more, read, size)
      (ap (λ t. some (record r { qos = t; has_qos = true })) (read_qos_region-fields host q v))

decode_subscribe_request-layout :
    (host : Endian) (r : SubscribeRequest)
    → IsSubscribeRequest r
    → decode_subscribe_request host (subscribe_layout r) ≡ some (with_qos r.has_qos r.qos r)
unfolding decode_subscribe_request
decode_subscribe_request-layout host r v =
    let (topic, type, source) = fixed_fields host r v in
    let long : ltb (length (layout host r v)) 21 ≡ false =
      le→not_ltb (length (layout host r v)) 21 (omega (arith, length_total host r v)) in
    rw (same_layout host r v, long, read_fqn host r v, read_type_name host r v, topic, type, source)
      (read_tail-qos_tail host (layout host r v) (after_type_name host r v) r.qos r r.has_qos
        v.qos_fits (short host r v) (past_type_name host r v))

-- A subscription whose strings are within the caps is decoded as it was sent, with its region of
-- choices where it has one and with the default where it has none.
pub decode_subscribe_request-encode_subscribe_request :
    (host host' : Endian) (r : SubscribeRequest) (written : List ℕ)
    → IsSubscribeRequest r
    → encode_subscribe_request host r ≡ some written
    → decode_subscribe_request host' written
      ≡ some (record r { qos = if r.has_qos then r.qos else no_qos })
decode_subscribe_request-encode_subscribe_request host host' r written v e =
    let same : written ≡ subscribe_layout r = cc (encode_subscribe_request-layout host r v) in
    rw same (decode_subscribe_request-layout host' r v)
