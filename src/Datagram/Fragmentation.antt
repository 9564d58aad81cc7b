-- ===== src/Datagram/Fragmentation.antt =====
-- lib/plexus-core/include/plexus/io/fragmentation.h: the split of a message into fragments. What the
-- sink is called with is a list.
pub mod Pieces
use plexus.Common.{
  ℕ, zero, suc, ◌+◌, ◌-◌, ◌*◌, ◌/◌, ◌%◌, ◌^◌, min, Bool, not, leb, ◌==◌, if◌then◌else◌,
}
use plexus.Common.{List, [], ◌∷◌, length, take, drop}
use plexus.Wire.UdpEnvelope.{udp_fragment_header_overhead}

abbrev pub max_message_size : ℕ
max_message_size = 4 * 1024 * 1024

abbrev pub min_fragment_payload : ℕ
min_fragment_payload = 128

abbrev pub global_default_max_message_bytes : ℕ
global_default_max_message_bytes = 8 * 1024 * 1024

abbrev pub reassembly_memory_budget : ℕ
reassembly_memory_budget = 16 * 1024 * 1024

-- Of the topic's settings, it reads `max_message_bytes`.
unfoldable pub effective_max : ℕ → ℕ → ℕ
effective_max max_message_bytes global_default =
    if not (max_message_bytes == 0) then max_message_bytes else global_default

abbrev pub max_fragment_count : ℕ
max_fragment_count = (max_message_size + min_fragment_payload - 1) / min_fragment_payload

abbrev pub k_aead_fragment_overhead : ℕ
k_aead_fragment_overhead = 8 + 1 + 16

unfoldable pub effective_fragment_budget : ℕ → Bool → ℕ
effective_fragment_budget transport_budget aead_decorated =
    let overhead =
      udp_fragment_header_overhead + (if aead_decorated then k_aead_fragment_overhead else 0) in
    if leb transport_budget (overhead + min_fragment_payload)
    then min_fragment_payload
    else transport_budget - overhead

-- What the sink is called with: `frag_idx`, `frag_cnt` and the slice.
pub record Fragment : Type 0 where
  pub frag_idx : ℕ
  pub frag_cnt : ℕ
  pub slice : List ℕ

unfoldable pub fragment : List ℕ → ℕ → ℕ → ℕ → Fragment
fragment payload budget frag_cnt i =
    let offset = i * budget in
    let len = min budget (length payload - offset) in
    record { frag_idx = i % 2 ^ 32; frag_cnt = frag_cnt; slice = take len (drop offset payload) }

-- The loop from turn `i` on, `turns` of them.
unfoldable pub split_loop : ℕ → ℕ → List ℕ → ℕ → ℕ → List Fragment
split_loop zero i payload budget frag_cnt = []
split_loop (suc turns) i payload budget frag_cnt =
    fragment payload budget frag_cnt i ∷ split_loop turns (i + 1) payload budget frag_cnt

unfoldable pub fragment_count : List ℕ → ℕ → ℕ
fragment_count payload budget =
    if length payload == 0 then 1 else (length payload + budget - 1) / budget

unfoldable pub split : List ℕ → ℕ → Bool → ℕ × List Fragment
split payload transport_budget aead_decorated =
    let budget = effective_fragment_budget transport_budget aead_decorated in
    let count = fragment_count payload budget in
    let frag_cnt = count % 2 ^ 32 in (frag_cnt, split_loop count 0 payload budget frag_cnt)
