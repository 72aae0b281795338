-- ===== src/Wire/Messages/RoundTrip.antt =====
-- A message through its frame and back.
use peeps.Prelude.{ℕ, ◌≡◌, refl, ok, err, Result, String, map_err, ◌>>=◌, arith}
use peeps.Wire.Frame.{Bytes, json, frame, FrameCodecError, encode_frame}
use peeps.Wire.Frame.RoundTrip.{decode_frame-encode_frame}
use peeps.Wire.Messages.{Serializer, encode_message, decode_message}

module _ {A : Type 0} (facet : Serializer A) where
  -- Reading gives back what writing was given.
  abbrev pub RoundTrips : A → Type 0
  RoundTrips message =
      (payload : Bytes) → facet.to_vec message ≡ ok payload → facet.from_slice payload ≡ ok message

  -- The payload and the frame of a message that encodes.
  pub encode_message-eq-ok :
      (message : A) (max : ℕ) (bytes : Bytes)
      → encode_message facet message max ≡ ok bytes
      → (payload : Bytes) × (facet.to_vec message ≡ ok payload)
        × (encode_frame payload max ≡ ok bytes)
  unfolding encode_message
  encode_message-eq-ok message max bytes h = written (facet.to_vec message) refl h
    where
      framed :
          (payload : Bytes) (r : Result FrameCodecError Bytes)
          → encode_frame payload max ≡ r
          → map_err frame r ≡ ok bytes
          → encode_frame payload max ≡ ok bytes
      framed payload (ok b) e q = ground arith
      framed payload (err x) e q = absurd (cc)

      written :
          (r : Result String Bytes)
          → facet.to_vec message ≡ r
          → (map_err json r >>= λ payload. map_err frame (encode_frame payload max)) ≡ ok bytes
          → (payload : Bytes) × (facet.to_vec message ≡ ok payload)
            × (encode_frame payload max ≡ ok bytes)
      written (ok payload) e q = (payload, e, framed payload (encode_frame payload max) refl q)
      written (err x) e q = absurd (cc)

  -- What a message was encoded to under a limit decodes to the message under the same limit, if
  -- the serializer reads back what it writes for it.
  pub decode_message-encode_message :
      (message : A) (max : ℕ) (bytes : Bytes)
      → RoundTrips message
      → encode_message facet message max ≡ ok bytes
      → decode_message facet bytes max ≡ ok message
  unfolding decode_message
  decode_message-encode_message message max bytes trip h =
      let (payload, wrote, sent) = encode_message-eq-ok message max bytes h in
      rw (decode_frame-encode_frame payload bytes max sent) (rw (trip payload wrote) refl)
