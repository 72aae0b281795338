-- ===== src/Tests/Messages.antt =====
-- Messages and streams at concrete inputs, with a serializer that writes a number as one byte.
use peeps.Prelude.{
  ℕ, ◌≡◌, refl, some, List, [], ◌∷◌, ◌++◌, String, Result, ok, err, arith, ltb, if◌then◌else◌,
}
use peeps.Wire.Frame.{Bytes, encode_protocol_magic, encode_frame}
use peeps.Wire.Messages.{Serializer, encode_message, decode_message}
use peeps.Wire.Messages.RoundTrip.{RoundTrips, decode_message-encode_message}
use peeps.Wire.Messages.Stream.{LoopError, read_messages}
use peeps.Wire.Messages.Stream.Reading.{frames, handle_all, IsSent, read_messages-frames}
use peeps.Wire.Messages.Stream.Ending.{read_messages-Ends}

abbrev first_byte : Bytes → Result String ℕ
first_byte [] = err "no byte"
first_byte (b ∷ bytes) = ok b

abbrev one_byte : Serializer ℕ
one_byte = record { to_vec = λ n. ok (n ∷ []); from_slice = first_byte }

abbrev collect : ℕ → List ℕ → List ℕ × Result String (Unit {0})
collect n seen = (n ∷ seen, if ltb n 100 then ok tt else err "large")

abbrev sent : List (ℕ × Bytes)
sent = (7, 0 ∷ 0 ∷ 0 ∷ 1 ∷ 7 ∷ []) ∷ (9, 0 ∷ 0 ∷ 0 ∷ 1 ∷ 9 ∷ []) ∷ []

reads_back : (n : ℕ) → RoundTrips one_byte n
reads_back n payload h = ground arith

is_sent : (n : ℕ) → IsSent one_byte (n, 0 ∷ 0 ∷ 0 ∷ 1 ∷ n ∷ [])
unfolding encode_message encode_frame
is_sent n = (reads_back n, refl)

decode_message-encode_message_example : decode_message one_byte (0 ∷ 0 ∷ 0 ∷ 1 ∷ 7 ∷ []) 1024 ≡ ok 7
unfolding encode_message encode_frame
decode_message-encode_message_example =
    decode_message-encode_message one_byte 7 1024 (0 ∷ 0 ∷ 0 ∷ 1 ∷ 7 ∷ []) (reads_back 7) refl

read_messages-frames_example :
    read_messages one_byte collect (encode_protocol_magic ++ frames sent) []
    ≡ some (handle_all collect sent [])
read_messages-frames_example =
    read_messages-frames one_byte collect sent [] (is_sent 7, (is_sent 9, tt))

read_messages-Ends_example :
    (end : List ℕ × Result (LoopError String) (Unit {0})) × (read_messages one_byte collect
        (77 ∷ 79 ∷ 73 ∷ 82 ∷ 0 ∷ 0 ∷ [])
        []
      ≡ some end)
read_messages-Ends_example = read_messages-Ends one_byte collect (77 ∷ 79 ∷ 73 ∷ 82 ∷ 0 ∷ 0 ∷ []) []
