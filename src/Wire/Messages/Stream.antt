-- ===== src/Wire/Messages/Stream.antt =====
-- crates/moire-web/src/tcp/mod.rs `read_messages` and crates/moire-runtime/src/dashboard.rs
-- `read_server_message`: messages read from a stream. The stream is what the peer writes before it
-- closes, so that reading past its end is an unexpected end of file.
pub mod Reading
pub mod Ending
use peeps.Prelude.{
  ℕ, zero, suc, ◌+◌, Bool, true, false, Option, none, some, List, [], ◌∷◌, ◌++◌, length, take, drop,
  ltb, if◌then◌else◌, Result, ok, err, ◌>>=◌, map_err, map_ok,
}
use peeps.Wire.Frame.{
  Bytes, WireError, from_be_bytes, default_max_frame_bytes, decode_protocol_magic,
}
use peeps.Wire.Messages.{Serializer, decode_message}

pub data ReadError : Type 0 where
  read_protocol_magic : ReadError
  invalid_protocol_magic : WireError → ReadError
  frame_too_large : ℕ → ReadError
  read_frame_payload : ReadError
  decode_message_error : WireError → ReadError

-- How a connection ends: by an error of the stream, or of the handler.
pub data LoopError (E : Type 0) : Type 0 where
  read : ReadError → LoopError E
  rejected : E → LoopError E

module _ {A : Type 0} (facet : Serializer A) where
  -- One message and what follows it; `none` at the end of the stream, which is also how a prefix
  -- of fewer than four bytes ends.
  unfoldable pub read_message : Bytes → Result ReadError (Option (A × Bytes))
  read_message (a ∷ b ∷ c ∷ d ∷ rest) =
      let payload_len = from_be_bytes a b c d in
      if ltb default_max_frame_bytes payload_len
      then err (frame_too_large payload_len)
      else if ltb (length rest) payload_len
      then err read_frame_payload
      else map_ok (λ message. some (message, drop payload_len rest))
          (map_err decode_message_error
            (decode_message facet (a ∷ b ∷ c ∷ d ∷ take payload_len rest) default_max_frame_bytes))
  read_message short = ok none

  module _ {S E : Type 0} (handle : A → S → S × Result E (Unit {0})) where
    -- The loop, on fuel: the state that the handler leaves, and how the loop ends.
    unfoldable pub read_loop : ℕ → Bytes → S → Option (S × Result (LoopError E) (Unit {0}))
    read_loop zero bytes s = none
    read_loop (suc fuel) bytes s = elim (read_message bytes) [
      | err e ↦ some (s, err (read e))
      | ok none ↦ some (s, ok tt)
      | ok (some (message, rest)) ↦
          let (s', outcome) = handle message s in
          elim outcome [ err e ↦ some (s', err (rejected e)) | ok u ↦ read_loop fuel rest s' ]
    ]

    -- `read_messages`: the magic, then the loop. A round of the loop takes at least four bytes.
    unfoldable pub read_messages : Bytes → S → Option (S × Result (LoopError E) (Unit {0}))
    read_messages (a ∷ b ∷ c ∷ d ∷ rest) s = elim (decode_protocol_magic a b c d) [
      | err e ↦ some (s, err (read (invalid_protocol_magic e)))
      | ok u ↦ read_loop (suc (length rest)) rest s
    ]
    read_messages short s = some (s, err (read read_protocol_magic))
