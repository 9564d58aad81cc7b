-- ===== src/Wire/TopicHash.antt =====
-- lib/plexus-wire/include/plexus/wire/topic_hash.h: the hash of a topic's name, in 64 bits.
use plexus.Common.{ℕ, ◌*◌, ◌%◌, ◌^◌, List, [], ◌∷◌, bit_xor}

unfoldable pub hash_loop : ℕ → List ℕ → ℕ
hash_loop h [] = h
hash_loop h (c ∷ cs) = hash_loop (bit_xor h c * 1099511628211 % 2 ^ 64) cs

unfoldable pub fqn_topic_hash : List ℕ → ℕ
fqn_topic_hash fqn = hash_loop 1469598103934665603 fqn
