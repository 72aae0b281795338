-- ===== src/Wire/Frame/RoundTrip.antt =====
-- The two directions of the framing, and its bounds.
use peeps.Prelude.{
  ℕ, ◌≤◌, ◌<◌, ◌≡◌, ap, ◌↔◌, ◌/◌, ◌%◌, ◌^◌, [], ◌∷◌, ◌++◌, arith, length, u32_max, ok,
}
use peeps.Wire.Frame.{
  Bytes, AreBytes, encode_frame, decode_frame, encode_frame_default, default_max_frame_bytes,
  to_be_bytes, from_be_bytes,
}

pub from_be_bytes-to_be_bytes :
    (n : ℕ)
    → n ≤ u32_max
    → from_be_bytes (n / 2 ^ 24 % 256) (n / 2 ^ 16 % 256) (n / 2 ^ 8 % 256) (n % 256) ≡ n
from_be_bytes-to_be_bytes n h = omega arith

-- What a successful encoding is.
pub encode_frame-eq-ok :
    (payload bytes : Bytes) (max : ℕ)
    → encode_frame payload max ≡ ok bytes
    → (length payload ≤ max)
      × (length payload ≤ u32_max)
      × (to_be_bytes (length payload) ++ payload ≡ bytes)
unfolding encode_frame
encode_frame-eq-ok payload bytes max h = ground arith

pub decode_frame-prefixed :
    (payload : Bytes) (max : ℕ)
    → length payload ≤ max
    → length payload ≤ u32_max
    → decode_frame (to_be_bytes (length payload) ++ payload) max ≡ ok payload
unfolding decode_frame
decode_frame-prefixed payload max fits small =
    rw (from_be_bytes-to_be_bytes (length payload) small) (ground arith)

pub encode_frame-prefixed :
    (payload : Bytes) (max : ℕ)
    → length payload ≤ max
    → length payload ≤ u32_max
    → encode_frame payload max ≡ ok (to_be_bytes (length payload) ++ payload)
unfolding encode_frame
encode_frame-prefixed payload max fits small = ground arith

to_be_bytes-from_be_bytes :
    (a b c d : ℕ)
    → a < 256
    → b < 256
    → c < 256
    → d < 256
    → to_be_bytes (from_be_bytes a b c d) ≡ a ∷ b ∷ c ∷ d ∷ []
to_be_bytes-from_be_bytes a b c d ha hb hc hd = ground arith

-- Whatever `encode_frame` produces under a limit, `decode_frame` under the same limit gives the
-- payload back.
pub decode_frame-encode_frame :
    (payload bytes : Bytes) (max : ℕ)
    → encode_frame payload max ≡ ok bytes
    → decode_frame bytes max ≡ ok payload
decode_frame-encode_frame payload bytes max h =
    let (fits, small, e) = encode_frame-eq-ok payload bytes max h in
    rw (← e) (decode_frame-prefixed payload max fits small)

-- Bytes (numbers below 256) that `decode_frame` accepts under a limit are what `encode_frame` under
-- the same limit makes of the payload that it returns.
pub encode_frame-decode_frame :
    (bytes payload : Bytes) (max : ℕ)
    → AreBytes bytes
    → decode_frame bytes max ≡ ok payload
    → encode_frame payload max ≡ ok bytes
unfolding encode_frame decode_frame
encode_frame-decode_frame (a ∷ b ∷ c ∷ d ∷ rest) payload max h e =
    let fields = to_be_bytes-from_be_bytes a b c d h.0 h.1.0 h.1.1.0 h.1.1.1.0 in
    let same : (rest ≡ payload) × (length rest ≡ from_be_bytes a b c d) × (length rest ≤ max) =
      ground arith in
    let whole : to_be_bytes (length rest) ++ rest ≡ a ∷ b ∷ c ∷ d ∷ rest =
      rw same.1 (ap (λ (p : Bytes). p ++ rest) fields) in
    rw (← same.0, ← whole) (encode_frame-prefixed rest max same.2 (ground arith))
encode_frame-decode_frame _ payload max h e = cc

-- `encode_frame_default` accepts exactly the payloads of at most 128 MiB; the limit of the 32-bit
-- length prefix is never the one that rejects.
encode_frame_default_iff :
    (payload : Bytes)
    → ((bytes : Bytes) × (encode_frame_default payload ≡ ok bytes))
      ↔ (length payload ≤ default_max_frame_bytes)
unfolding encode_frame_default encode_frame
encode_frame_default_iff payload =
    (λ (bytes, e). ground arith, λ h. (to_be_bytes (length payload) ++ payload, ground arith))
