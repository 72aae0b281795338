-- ===== src/Wire/Frame/Magic.antt =====
-- The protocol magic.
use peeps.Prelude.{ℕ, ◌<◌, ◌≡◌, ◌↔◌, [], ◌∷◌, ok, arith}
use peeps.Wire.Frame.{encode_protocol_magic, decode_protocol_magic}

-- Of all quadruples of bytes, `decode_protocol_magic` accepts the one that `encode_protocol_magic`
-- sends, and no other.
decode_protocol_magic_iff :
    (a b c d : ℕ)
    → a < 256
    → b < 256
    → c < 256
    → d < 256
    → (decode_protocol_magic a b c d ≡ ok tt) ↔ (encode_protocol_magic ≡ a ∷ b ∷ c ∷ d ∷ [])
unfolding decode_protocol_magic encode_protocol_magic
decode_protocol_magic_iff a b c d ha hb hc hd = (λ e. ground arith, λ e. ground arith)
