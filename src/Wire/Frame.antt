-- ===== src/Wire/Frame.antt =====
-- crates/moire-wire/src/lib.rs: the framing and the magic. A byte is a number below 256, and the
-- slices of the source are lists of bytes.
pub mod RoundTrip
pub mod Magic
use peeps.Prelude.{
  ℕ, ◌+◌, ◌*◌, ◌/◌, ◌%◌, ◌^◌, ◌<◌, ◌≡◌, Bool, true, false, List, [], ◌∷◌, ◌++◌, length, All, ltb,
  not, ◌==◌, if◌then◌else◌, u32_max, Result, ok, err, ◌>>=◌, map_err, String,
}

abbrev pub Bytes : Type 0
Bytes = List ℕ

-- Every element is a byte.
abbrev pub AreBytes : Bytes → Type 0
AreBytes = All (λ b. b < 256)

abbrev pub default_max_frame_bytes : ℕ
default_max_frame_bytes = 128 * 1024 * 1024

abbrev pub protocol_magic : ℕ
protocol_magic = 0x4D4F4952

pub data FrameCodecError : Type 0 where
  payload_too_large : ℕ → ℕ → FrameCodecError
  frame_too_short : ℕ → FrameCodecError
  frame_too_large : ℕ → ℕ → FrameCodecError
  frame_truncated : ℕ → ℕ → FrameCodecError

pub data WireError : Type 0 where
  frame : FrameCodecError → WireError
  json : String → WireError
  magic_mismatch : ℕ → ℕ → WireError

-- `u32::to_be_bytes` and `u32::from_be_bytes`.
abbrev pub to_be_bytes : ℕ → Bytes
to_be_bytes n = (n / 2 ^ 24 % 256) ∷ (n / 2 ^ 16 % 256) ∷ (n / 2 ^ 8 % 256) ∷ (n % 256) ∷ []

abbrev pub from_be_bytes : ℕ → ℕ → ℕ → ℕ → ℕ
from_be_bytes a b c d = a * 2 ^ 24 + b * 2 ^ 16 + c * 2 ^ 8 + d

-- `u32::try_from(n)` with the error of `encode_frame`.
u32_try_from : ℕ → Result FrameCodecError ℕ
u32_try_from n = if ltb u32_max n then err (payload_too_large n u32_max) else ok n

unfoldable pub encode_frame : Bytes → ℕ → Result FrameCodecError Bytes
unfolding u32_try_from
encode_frame payload max_payload_bytes =
    if ltb max_payload_bytes (length payload)
    then err (payload_too_large (length payload) max_payload_bytes)
    else do payload_len ← u32_try_from (length payload); ok (to_be_bytes payload_len ++ payload)

unfoldable pub encode_frame_default : Bytes → Result FrameCodecError Bytes
encode_frame_default payload = encode_frame payload default_max_frame_bytes

-- The first clause has the four bytes of the prefix, and `rest` is `&frame[4..]`.
unfoldable pub decode_frame : Bytes → ℕ → Result FrameCodecError Bytes
decode_frame (a ∷ b ∷ c ∷ d ∷ rest) max_payload_bytes =
    let payload_len = from_be_bytes a b c d in
    if ltb max_payload_bytes payload_len
    then err (frame_too_large payload_len max_payload_bytes)
    else if not (length rest == payload_len)
    then err (frame_truncated payload_len (length rest))
    else ok rest
decode_frame short max_payload_bytes = err (frame_too_short (length short))

unfoldable pub decode_frame_default : Bytes → Result FrameCodecError Bytes
decode_frame_default bytes = decode_frame bytes default_max_frame_bytes

unfoldable pub encode_protocol_magic : Bytes
encode_protocol_magic = to_be_bytes protocol_magic

-- The argument is a `[u8; 4]`.
unfoldable pub decode_protocol_magic : ℕ → ℕ → ℕ → ℕ → Result WireError (Unit {0})
decode_protocol_magic a b c d =
    let actual = from_be_bytes a b c d in
    if not (actual == protocol_magic) then err (magic_mismatch protocol_magic actual) else ok tt
