-- ===== src/Wire/Messages/Stream/Reading.antt =====
-- What the read loop makes of a stream.
use peeps.Prelude.{
  ℕ, zero, suc, ◌≤◌, ◌<◌, ◌≡◌, refl, Option, none, some, List, [], ◌∷◌, ◌++◌, length, Result, ok,
  err, arith, All, le→ltb, length-append, take-append, drop-append,
}
use peeps.Wire.Frame.{
  Bytes, to_be_bytes, default_max_frame_bytes, encode_protocol_magic, decode_protocol_magic,
}
use peeps.Wire.Frame.RoundTrip.{encode_frame-eq-ok, from_be_bytes-to_be_bytes}
use peeps.Wire.Messages.{Serializer, encode_message, decode_message}
use peeps.Wire.Messages.RoundTrip.{RoundTrips, encode_message-eq-ok, decode_message-encode_message}
use peeps.Wire.Messages.Stream.{LoopError, rejected, read_message, read_loop, read_messages}

-- Messages, each with its frame.
abbrev pub frames {ℓ} : {A : Type ℓ} → List (A × Bytes) → Bytes
frames [] = []
frames ((message, bytes) ∷ sent) = bytes ++ frames sent

-- A handler on messages one after another, up to its first error.
abbrev pub handle_all :
    {A S E : Type 0}
    → (A → S → S × Result E (Unit {0}))
    → List (A × Bytes)
    → S
    → S × Result (LoopError E) (Unit {0})
handle_all handle [] s = (s, ok tt)
handle_all handle ((message, bytes) ∷ sent) s =
    let (s', outcome) = handle message s in
    elim outcome [ err e ↦ (s', err (rejected e)) | ok u ↦ handle_all handle sent s' ]

module _ {A : Type 0} (facet : Serializer A) where
  -- A message that was encoded under the default limit, and that the serializer reads back.
  abbrev pub IsSent : A × Bytes → Type 0
  IsSent sent =
      RoundTrips facet sent.0 × (encode_message facet sent.0 default_max_frame_bytes ≡ ok sent.1)

  read_message-nil : read_message facet [] ≡ ok none
  unfolding read_message
  read_message-nil = refl

  -- The first frame of a stream.
  read_message-prefixed :
      (message : A) (payload rest : Bytes)
      → length payload ≤ default_max_frame_bytes
      → decode_message facet (to_be_bytes (length payload) ++ payload) default_max_frame_bytes
        ≡ ok message
      → read_message facet (to_be_bytes (length payload) ++ (payload ++ rest))
        ≡ ok (some (message, rest))
  unfolding read_message
  read_message-prefixed message payload rest fits decoded =
      rw (from_be_bytes-to_be_bytes (length payload) (omega arith)) (
        rw
          (
            le→ltb default_max_frame_bytes (length payload) fits,
            take-append payload rest,
            drop-append payload rest,
            le→ltb (length (payload ++ rest)) (length payload)
                (omega (arith, length-append payload rest)),
            decoded,
          )
          refl)

  read_message-append :
      (message : A) (bytes rest : Bytes)
      → IsSent (message, bytes)
      → (read_message facet (bytes ++ rest) ≡ ok (some (message, rest))) × (4 ≤ length bytes)
  read_message-append message bytes rest h =
      let (payload, wrote, framed) =
        encode_message-eq-ok facet message default_max_frame_bytes bytes h.1 in
      let (fits, small, e) = encode_frame-eq-ok payload bytes default_max_frame_bytes framed in
      let decoded =
        decode_message-encode_message facet message default_max_frame_bytes bytes h.0 h.1 in
      (
        rw (← e) (read_message-prefixed message payload rest fits (rw e decoded)),
        rw (← e) (omega arith),
      )

  module _ {S E : Type 0} (handle : A → S → S × Result E (Unit {0})) where
    read_loop-frames :
        (sent : List (A × Bytes)) (fuel : ℕ) (s : S)
        → All IsSent sent
        → length (frames sent) < fuel
        → read_loop facet handle fuel (frames sent) s ≡ some (handle_all handle sent s)
    unfolding read_loop
    read_loop-frames sent zero s h enough = absurd (omega arith)
    read_loop-frames [] (suc fuel) s h enough = rw (read_message-nil, read_loop) refl
    read_loop-frames ((message, bytes) ∷ sent) (suc fuel) s h enough =
        let (first, long) = read_message-append message bytes (frames sent) h.0 in
        rw (first, read_loop)
          (after (handle message s) (λ s'.
            read_loop-frames sent fuel s' h.1 (omega (arith, length-append bytes (frames sent)))))
      where
        after :
            (r : S × Result E (Unit {0}))
            → ((s' : S)
                → read_loop facet handle fuel (frames sent) s' ≡ some (handle_all handle sent s'))
            → elim r.1 as (λ o. Option (S × Result (LoopError E) (Unit {0}))) [
              | err e ↦ some (r.0, err (rejected e))
              | ok u ↦ read_loop facet handle fuel (frames sent) r.0
            ]
              ≡ some (elim r.1 as (λ o. S × Result (LoopError E) (Unit {0})) [
                | err e ↦ (r.0, err (rejected e))
                | ok u ↦ handle_all handle sent r.0
              ])
        after (s', ok u) ih = ih s'
        after (s', err e) ih = refl

    -- On the magic followed by the frames of messages that were each encoded under the default
    -- limit, and that the serializer reads back, the read loop ends, and does exactly what handing
    -- the messages to the handler one after another does, up to the handler's first error.
    pub read_messages-frames :
        (sent : List (A × Bytes)) (s : S)
        → All IsSent sent
        → read_messages facet handle (encode_protocol_magic ++ frames sent) s
          ≡ some (handle_all handle sent s)
    unfolding read_messages encode_protocol_magic decode_protocol_magic
    read_messages-frames sent s h =
        read_loop-frames sent (suc (length (frames sent))) s h (omega arith)
