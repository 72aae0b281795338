-- ===== src/Wire/Messages/Stream/Ending.antt =====
-- The read loop on any bytes.
use peeps.Prelude.{
  ℕ, zero, suc, ◌<◌, ◌≡◌, refl, Option, none, some, [], ◌∷◌, length, Result, ok, err, arith,
  length-drop,
}
use peeps.Wire.Frame.{Bytes, WireError, from_be_bytes, decode_protocol_magic}
use peeps.Wire.Messages.{Serializer}
use peeps.Wire.Messages.Stream.{
  ReadError, LoopError, rejected, read, invalid_protocol_magic, read_message, read_loop,
  read_messages,
}

module _ {A : Type 0} (facet : Serializer A) where
  -- A message leaves fewer bytes.
  read_message-shrinks :
      (bytes rest : Bytes) (message : A)
      → read_message facet bytes ≡ ok (some (message, rest))
      → length rest < length bytes
  unfolding read_message
  read_message-shrinks (a ∷ b ∷ c ∷ d ∷ rest) left message h =
      ground (arith, length-drop (from_be_bytes a b c d) rest)
  read_message-shrinks (a ∷ b ∷ c ∷ []) left message h = ground arith
  read_message-shrinks (a ∷ b ∷ []) left message h = ground arith
  read_message-shrinks (a ∷ []) left message h = ground arith
  read_message-shrinks [] left message h = ground arith

  module _ {S E : Type 0} (handle : A → S → S × Result E (Unit {0})) where
    abbrev Ends : Option (S × Result (LoopError E) (Unit {0})) → Type 0
    Ends r = (end : S × Result (LoopError E) (Unit {0})) × (r ≡ some end)

    read_loop-Ends :
        (fuel : ℕ) (bytes : Bytes) (s : S)
        → length bytes < fuel
        → Ends (read_loop facet handle fuel bytes s)
    unfolding read_loop
    read_loop-Ends zero bytes s enough = absurd (omega arith)
    read_loop-Ends (suc fuel) bytes s enough =
        after_message (read_message facet bytes) refl (read_loop-Ends fuel)
      where
        after_handle :
            (rest : Bytes) (r : S × Result E (Unit {0}))
            → ((s' : S) → Ends (read_loop facet handle fuel rest s'))
            → Ends (elim r.1 as (λ o. Option (S × Result (LoopError E) (Unit {0}))) [
              | err e ↦ some (r.0, err (rejected e))
              | ok u ↦ read_loop facet handle fuel rest r.0
            ])
        after_handle rest (s', ok u) ih = ih s'
        after_handle rest (s', err e) ih = ((s', err (rejected e)), refl)

        after_message :
            (r : Result ReadError (Option (A × Bytes)))
            → read_message facet bytes ≡ r
            → ((left : Bytes) (s' : S)
                → length left < fuel
                → Ends (read_loop facet handle fuel left s'))
            → Ends (elim r as (λ o. Option (S × Result (LoopError E) (Unit {0}))) [
              | err e ↦ some (s, err (read e))
              | ok none ↦ some (s, ok tt)
              | ok (some (message, rest)) ↦
                  let (s', outcome) = handle message s in
                  elim outcome [
                    | err e ↦ some (s', err (rejected e))
                    | ok u ↦ read_loop facet handle fuel rest s'
                  ]
            ])
        after_message (err e) q ih = ((s, err (read e)), refl)
        after_message (ok none) q ih = ((s, ok tt), refl)
        after_message (ok (some (message, rest))) q ih =
            let fewer = read_message-shrinks bytes rest message q in
            after_handle rest (handle message s) (λ s'. ih rest s' (omega arith))

    -- On any stream and in any state the read loop ends: it never runs out of its fuel, one unit
    -- for each byte behind the magic and one more.
    pub read_messages-Ends :
        (bytes : Bytes) (s : S)
        → (end : S × Result (LoopError E) (Unit {0})) × (read_messages facet handle bytes s
            ≡ some end)
    unfolding read_messages
    read_messages-Ends (a ∷ b ∷ c ∷ d ∷ rest) s = after_magic (decode_protocol_magic a b c d)
      where
        after_magic :
            (r : Result WireError (Unit {0}))
            → Ends (elim r as (λ o. Option (S × Result (LoopError E) (Unit {0}))) [
              | err e ↦ some (s, err (read (invalid_protocol_magic e)))
              | ok u ↦ read_loop facet handle (suc (length rest)) rest s
            ])
        after_magic (ok u) = read_loop-Ends (suc (length rest)) rest s (omega arith)
        after_magic (err e) = ((s, err (read (invalid_protocol_magic e))), refl)
    read_messages-Ends (a ∷ b ∷ c ∷ []) s = (_, refl)
    read_messages-Ends (a ∷ b ∷ []) s = (_, refl)
    read_messages-Ends (a ∷ []) s = (_, refl)
    read_messages-Ends [] s = (_, refl)
