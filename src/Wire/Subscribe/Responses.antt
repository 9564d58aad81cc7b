-- ===== src/Wire/Subscribe/Responses.antt =====
-- The answers to a subscription, and its end.
use plexus.Common.{ℕ, ◌<◌, ◌^◌, ◌≡◌, refl, ap, Bool, true, false, if◌then◌else◌}
use plexus.Common.{some, ◌>>=◌, List, [], ◌∷◌, ◌++◌, replicate}
use plexus.Wire.ByteOrder.{Endian, be_bytes}
use plexus.Wire.ByteOrder.Swap.{write_u64-be_bytes, read_u64-be_bytes}
use plexus.Wire.Writer.Fill.{fill_lem, flatten}
use plexus.Wire.Subscribe.{
  SubscribeResponse, write_degraded, encode_subscribe_response, decode_subscribe_response,
}
use plexus.Wire.Subscribe.{
  encode_unsubscribe_request, decode_unsubscribe_request, encode_unsubscribe_response,
  decode_unsubscribe_response,
}

abbrev degraded_tail : Bool → ℕ → List (List ℕ)
degraded_tail false flags = []
degraded_tail true flags = (flags ∷ []) ∷ []

module _ (host : Endian) (topic_hash status : ℕ) (h : topic_hash < 2 ^ 64) where
  response_bytes :
      (b : Bool) (flags : ℕ)
      → encode_subscribe_response host (record {
        topic_hash = topic_hash;
        status = status;
        has_degraded = b;
        degraded_flags = flags;
      })
        ≡ some (be_bytes 8 topic_hash ++ (status ∷ flatten (degraded_tail b flags)))
  unfolding encode_subscribe_response write_degraded
  response_bytes false flags = rw (write_u64-be_bytes host topic_hash h) (
      fill_lem (be_bytes 8 topic_hash ∷ (status ∷ []) ∷ []) (replicate 9 0)
        (unfold be_bytes in refl))
  response_bytes true flags = rw (write_u64-be_bytes host topic_hash h) (
      fill_lem (be_bytes 8 topic_hash ∷ (status ∷ []) ∷ (flags ∷ []) ∷ []) (replicate 10 0)
        (unfold be_bytes in refl))

  decoded_response :
      (b : Bool) (flags : ℕ)
      → decode_subscribe_response host
          (be_bytes 8 topic_hash ++ (status ∷ flatten (degraded_tail b flags)))
        ≡ some (record {
          topic_hash = topic_hash;
          status = status;
          has_degraded = b;
          degraded_flags = if b then flags else 0;
        })
  unfolding decode_subscribe_response be_bytes
  decoded_response false flags =
      ap
        (λ t.
          some
            (record { topic_hash = t; status = status; has_degraded = false; degraded_flags = 0 }))
        (read_u64-be_bytes host topic_hash (status ∷ []) h)
  decoded_response true flags =
      ap
        (λ t.
          some (record {
            topic_hash = t;
            status = status;
            has_degraded = true;
            degraded_flags = flags;
          }))
        (read_u64-be_bytes host topic_hash (status ∷ flags ∷ []) h)

-- The answer to a subscription, its end and the answer to that are decoded as they were sent; the
-- byte of the fields that are not met is there where the answer says so, and 0 where it does not.
pub decode_subscribe_response-encode_subscribe_response :
    (host host' : Endian) (resp : SubscribeResponse)
    → resp.topic_hash < 2 ^ 64
    → ((encode_subscribe_response host resp >>= decode_subscribe_response host')
        ≡ some
            (record resp { degraded_flags = if resp.has_degraded then resp.degraded_flags else 0 }))
      × ((encode_unsubscribe_request host resp.topic_hash >>= decode_unsubscribe_request host')
          ≡ some resp.topic_hash)
      × ((encode_unsubscribe_response host
              (record { topic_hash = resp.topic_hash; status = resp.status })
            >>= decode_unsubscribe_response host')
          ≡ some (record { topic_hash = resp.topic_hash; status = resp.status }))
decode_subscribe_response-encode_subscribe_response host host' resp h = (
  rw (response_bytes host resp.topic_hash resp.status h resp.has_degraded resp.degraded_flags)
      (decoded_response host' resp.topic_hash resp.status h resp.has_degraded resp.degraded_flags),
  rw request_bytes (
      unfold decode_unsubscribe_request be_bytes in
      ap some (read_u64-be_bytes host' resp.topic_hash [] h)),
  rw answer_bytes (
      unfold decode_unsubscribe_response be_bytes in
      ap (λ t. some (record { topic_hash = t; status = resp.status }))
        (read_u64-be_bytes host' resp.topic_hash (resp.status ∷ []) h)),
)
  where
    request_bytes :
        encode_unsubscribe_request host resp.topic_hash ≡ some (be_bytes 8 resp.topic_hash ++ [])
    request_bytes =
        unfold encode_unsubscribe_request in
        rw (write_u64-be_bytes host resp.topic_hash h)
          (fill_lem (be_bytes 8 resp.topic_hash ∷ []) (replicate 8 0) (unfold be_bytes in refl))

    answer_bytes :
        encode_unsubscribe_response host
          (record { topic_hash = resp.topic_hash; status = resp.status })
        ≡ some (be_bytes 8 resp.topic_hash ++ (resp.status ∷ []))
    answer_bytes =
        unfold encode_unsubscribe_response in
        rw (write_u64-be_bytes host resp.topic_hash h) (
          fill_lem (be_bytes 8 resp.topic_hash ∷ (resp.status ∷ []) ∷ []) (replicate 9 0)
            (unfold be_bytes in refl))
