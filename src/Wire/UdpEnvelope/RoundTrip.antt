-- ===== src/Wire/UdpEnvelope/RoundTrip.antt =====
-- The datagram's wrapper: what is written, and that it is read back.
use plexus.Common.{
  ℕ, ◌+◌, ◌<◌, zero, suc, ◌^◌, ◌≡◌, refl, ap, ◌∙◌, arith, Bool, true, false, not, ◌==◌, ltb,
  bit_and, le→not_ltb,
}
use plexus.Common.{some, List, [], ◌∷◌, ◌++◌, ◌>>=◌, append-nil, length, length-append}
use plexus.Wire.ByteOrder.{Endian, shr, be_bytes}
use plexus.Wire.ByteOrder.Swap.{write_u16-be_bytes, write_u32-be_bytes, length-be_bytes}
use plexus.Wire.Writer.{writer, resize}
use plexus.Wire.Writer.Fill.{fill, fill_lem, flatten, length-resize}
use plexus.Wire.Reader.{reader, rest}
use plexus.Wire.Reader.Take.{reader-At, rest-At, u8-At, u16-At, u32-At}
use plexus.Wire.UdpEnvelope.{pack_ver_flags}
use plexus.Wire.UdpEnvelope.{
  wrap_udp, wrap_udp_into, wrap_udp_into_fragmented, wrap_udp_fragment_into, unwrap_udp,
}
use plexus.Wire.UdpEnvelope.{encode_udp_fragment_payload_into, decode_udp_fragment_header}

-- The wrapper in front of a frame.
abbrev pub envelope : ℕ → Bool → ℕ → List ℕ → List ℕ
envelope kind fragmented seq frame = pack_ver_flags kind fragmented ∷ (be_bytes 2 seq ++ frame)

module _ (host : Endian) (out : List ℕ) (kind seq : ℕ) (frame : List ℕ) (hs : seq < 2 ^ 16) where
  filled_envelope :
      (fragmented : Bool)
      → fill
          ((pack_ver_flags kind fragmented ∷ []) ∷ be_bytes 2 seq ∷ frame ∷ [])
          (writer (resize (3 + length frame) out))
        ≡ some (envelope kind fragmented seq frame)
  filled_envelope fragmented =
      let all : flatten ((pack_ver_flags kind fragmented ∷ []) ∷ be_bytes 2 seq ∷ frame ∷ [])
          ≡ envelope kind fragmented seq frame =
        ap (λ t. pack_ver_flags kind fragmented ∷ (be_bytes 2 seq ++ t)) (append-nil frame) in
      fill_lem ((pack_ver_flags kind fragmented ∷ []) ∷ be_bytes 2 seq ∷ frame ∷ [])
        (resize (3 + length frame) out)
        (ap length all
          ∙ omega (
            arith,
            length-append (be_bytes 2 seq) frame,
            length-be_bytes 2 seq,
            length-resize (3 + length frame) out,
          ))
      ∙ ap some all

  pub wrap_udp_into-envelope :
      wrap_udp_into host out kind seq frame ≡ some (envelope kind false seq frame)
  unfolding wrap_udp_into
  wrap_udp_into-envelope = rw (write_u16-be_bytes host seq hs) (filled_envelope false)

  pub wrap_udp_into_fragmented-envelope :
      wrap_udp_into_fragmented host out kind seq frame ≡ some (envelope kind true seq frame)
  unfolding wrap_udp_into_fragmented
  wrap_udp_into_fragmented-envelope = rw (write_u16-be_bytes host seq hs) (filled_envelope true)

flags_lem :
    (kind : ℕ) (fragmented : Bool)
    → kind < 4
    → (shr (bit_and (pack_ver_flags kind fragmented) 192) 6 ≡ kind)
      × (not (bit_and (pack_ver_flags kind fragmented) 1 == 0) ≡ fragmented)
unfolding pack_ver_flags
flags_lem zero true h = (refl, refl)
flags_lem (suc zero) true h = (refl, refl)
flags_lem (suc (suc zero)) true h = (refl, refl)
flags_lem (suc (suc (suc zero))) true h = (refl, refl)
flags_lem zero false h = (refl, refl)
flags_lem (suc zero) false h = (refl, refl)
flags_lem (suc (suc zero)) false h = (refl, refl)
flags_lem (suc (suc (suc zero))) false h = (refl, refl)
flags_lem (suc (suc (suc (suc k)))) fragmented h = absurd (omega arith)

pub unwrap_udp-envelope :
    (host : Endian) (kind seq : ℕ) (fragmented : Bool) (frame : List ℕ)
    → kind < 4
    → seq < 2 ^ 16
    → unwrap_udp host (envelope kind fragmented seq frame)
      ≡ some (record { kind = kind; seq = seq; frame = frame; fragmented = fragmented })
unfolding unwrap_udp
unwrap_udp-envelope host kind seq fragmented frame hk hs =
    let input = envelope kind fragmented seq frame in
    let long : ltb (length input) 3 ≡ false =
      le→not_ltb (length input) 3
        (omega (arith, length-append (be_bytes 2 seq) frame, length-be_bytes 2 seq)) in
    let (r1, e1, a1) = u8-At (reader input) _ _ (reader-At input) in
    let (r2, e2, a2) = u16-At host r1 seq _ hs a1 in
    let (same_kind, same_flag) = flags_lem kind fragmented hk in
    rw (e1, e2, long, same_kind, same_flag, rest-At a2) refl

-- A datagram is unwrapped to its kind, its number, its frame and its flag, whichever of the three
-- wrappers made it; a kind is any number of two bits.
pub unwrap_udp-wrap_udp :
    (host host' : Endian) (out frame : List ℕ) (kind seq : ℕ)
    → kind < 4
    → seq < 2 ^ 16
    → (wrap_udp host kind seq frame ≡ wrap_udp_into host out kind seq frame)
      × ((wrap_udp_into host out kind seq frame >>= unwrap_udp host')
          ≡ some (record { kind = kind; seq = seq; frame = frame; fragmented = false }))
      × ((wrap_udp_into_fragmented host out kind seq frame >>= unwrap_udp host')
          ≡ some (record { kind = kind; seq = seq; frame = frame; fragmented = true }))
unwrap_udp-wrap_udp host host' out frame kind seq hk hs =
    let plain = wrap_udp_into-envelope host out kind seq frame hs in
    (
      rw plain (
          unfold wrap_udp in
          rw (write_u16-be_bytes host seq hs) (filled_envelope host [] kind seq frame hs false)),
      rw plain (unwrap_udp-envelope host' kind seq false frame hk hs),
      rw (wrap_udp_into_fragmented-envelope host out kind seq frame hs)
          (unwrap_udp-envelope host' kind seq true frame hk hs),
    )

module _ (host : Endian) (msg_id frag_idx frag_cnt : ℕ) (slice : List ℕ) (hm : msg_id < 2 ^ 16)
    (hi : frag_idx < 2 ^ 32) (hc : frag_cnt < 2 ^ 32) where
  abbrev subheader : List (List ℕ)
  subheader = be_bytes 2 msg_id ∷ be_bytes 4 frag_idx ∷ be_bytes 4 frag_cnt ∷ slice ∷ []

  length-subheader : length (flatten subheader) ≡ 10 + length slice
  length-subheader = simp (length-append, length-be_bytes, append-nil) (omega arith)

  encode_udp_fragment_payload_into-subheader :
      (out : List ℕ)
      → encode_udp_fragment_payload_into host out msg_id frag_idx frag_cnt slice
        ≡ some (flatten subheader)
  unfolding encode_udp_fragment_payload_into
  encode_udp_fragment_payload_into-subheader out =
      rw
        (
          write_u16-be_bytes host msg_id hm,
          write_u32-be_bytes host frag_idx hi,
          write_u32-be_bytes host frag_cnt hc,
        )
        (fill_lem subheader (resize (10 + length slice) out)
          (omega (arith, length-subheader, length-resize (10 + length slice) out)))

  wrap_udp_fragment_into-envelope :
      (out : List ℕ) (kind seq : ℕ)
      → seq < 2 ^ 16
      → wrap_udp_fragment_into host out kind seq msg_id frag_idx frag_cnt slice
        ≡ some (envelope kind true seq (flatten subheader))
  unfolding wrap_udp_fragment_into
  wrap_udp_fragment_into-envelope out kind seq hs =
      rw
        (
          write_u16-be_bytes host seq hs,
          write_u16-be_bytes host msg_id hm,
          write_u32-be_bytes host frag_idx hi,
          write_u32-be_bytes host frag_cnt hc,
        )
        (fill_lem ((pack_ver_flags kind true ∷ []) ∷ be_bytes 2 seq ∷ subheader)
          (resize (13 + length slice) out)
          (omega (
            arith,
            length-subheader,
            length-append (be_bytes 2 seq) (flatten subheader),
            length-be_bytes 2 seq,
            length-resize (13 + length slice) out,
          )))

  decode_udp_fragment_header-subheader :
      decode_udp_fragment_header host (flatten subheader)
      ≡ some (record { msg_id = msg_id; frag_idx = frag_idx; frag_cnt = frag_cnt; payload = slice })
  unfolding decode_udp_fragment_header
  decode_udp_fragment_header-subheader =
      let input = flatten subheader in
      let long : ltb (length input) 10 ≡ false =
        le→not_ltb (length input) 10 (omega (arith, length-subheader)) in
      let (r1, e1, a1) = u16-At host (reader input) msg_id _ hm (reader-At input) in
      let (r2, e2, a2) = u32-At host r1 frag_idx _ hi a1 in
      let (r3, e3, a3) = u32-At host r2 frag_cnt _ hc a2 in
      let tail : rest r3 ≡ slice = rest-At a3 ∙ append-nil slice in rw (e1, e2, e3, long, tail) refl

-- A fragment is found again in its datagram, and in the payload that carries it without a wrapper.
pub decode_udp_fragment_header-wrap_udp_fragment_into :
    (host host' : Endian) (out slice : List ℕ) (kind seq msg_id frag_idx frag_cnt : ℕ)
    → kind < 4
    → seq < 2 ^ 16
    → msg_id < 2 ^ 16
    → frag_idx < 2 ^ 32
    → frag_cnt < 2 ^ 32
    → (datagram : List ℕ) × (wrap_udp_fragment_into host out kind seq msg_id frag_idx frag_cnt slice
        ≡ some datagram)
      × ((unwrap_udp host' datagram >>= λ d. some d.fragmented) ≡ some true)
      × ((unwrap_udp host' datagram >>= λ d. decode_udp_fragment_header host' d.frame)
          ≡ some (record {
            msg_id = msg_id;
            frag_idx = frag_idx;
            frag_cnt = frag_cnt;
            payload = slice;
          }))
      × ((encode_udp_fragment_payload_into host out msg_id frag_idx frag_cnt slice
            >>= decode_udp_fragment_header host')
          ≡ some (record {
            msg_id = msg_id;
            frag_idx = frag_idx;
            frag_cnt = frag_cnt;
            payload = slice;
          }))
decode_udp_fragment_header-wrap_udp_fragment_into host host' out slice kind seq msg_id frag_idx
      frag_cnt hk hs hm hi hc =
    let inner = flatten (subheader host msg_id frag_idx frag_cnt slice hm hi hc) in
    let unwrapped = unwrap_udp-envelope host' kind seq true inner hk hs in
    let decoded =
      decode_udp_fragment_header-subheader host' msg_id frag_idx frag_cnt slice hm hi hc in
    (
      envelope kind true seq inner,
      wrap_udp_fragment_into-envelope host msg_id frag_idx frag_cnt slice hm hi hc out kind seq hs,
      rw unwrapped refl,
      rw unwrapped decoded,
      rw
          (encode_udp_fragment_payload_into-subheader host msg_id frag_idx frag_cnt slice hm hi hc
            out)
          decoded,
    )
