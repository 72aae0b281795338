-- ===== src/Server/Handshake/Validation.antt =====
-- Which handshakes are accepted.
use peeps.Prelude.{
  ℕ, ◌+◌, ◌<◌, ◌≡◌, ◌↔◌, refl, true, false, List, [], ◌∷◌, ok, arith, All, is_blank, is_absolute,
  String, not, is_ok,
}
use peeps.Wire.Messages.{ModuleIdentity, build_id, debug_id, ModuleManifestEntry, Handshake}
use peeps.Server.Handshake.{
  validate_handshake, validate_modules, validate_module, validate_identity,
}

abbrev pub identity_text : ModuleIdentity → String
identity_text (build_id id) = id
identity_text (debug_id id) = id

-- An absolute path, a base that is not zero, an architecture and an identity that are not blank.
abbrev pub IsUsable : ModuleManifestEntry → Type 0
IsUsable m =
    (is_blank m.module_path ≡ false)
    × (is_absolute m.module_path ≡ true)
    × (0 < m.runtime_base)
    × (is_blank m.arch ≡ false)
    × (is_blank (identity_text m.identity) ≡ false)

validate_identity-ok :
    (index : ℕ) (i : ModuleIdentity)
    → is_ok (validate_identity index i) ≡ not (is_blank (identity_text i))
unfolding validate_identity
validate_identity-ok index (build_id id) = ground arith
validate_identity-ok index (debug_id id) = ground arith

validate_module-ok :
    (index : ℕ) (m : ModuleManifestEntry) → (is_ok (validate_module index m) ≡ true) ↔ IsUsable m
unfolding validate_module
validate_module-ok index m = ground (arith, validate_identity-ok index m.identity)

validate_modules-ok :
    (index : ℕ) (ms : List ModuleManifestEntry)
    → (is_ok (validate_modules index ms) ≡ true) ↔ All IsUsable ms
unfolding validate_modules
validate_modules-ok index [] = (λ h. tt, λ h. refl)
validate_modules-ok index (m ∷ ms) =
    ground (arith, validate_module-ok index m, validate_modules-ok (index + 1) ms)

-- A handshake is accepted exactly when the identifier and the name of its process are not blank and
-- every module of its manifest has an absolute path that is not blank, a base that is not zero, and
-- an architecture and an identity that are not blank.
pub validate_handshake_iff :
    (h : Handshake)
    → (validate_handshake h ≡ ok tt) ↔ (
        (is_blank h.process_id ≡ false)
        × (is_blank h.process_name ≡ false)
        × All IsUsable h.module_manifest)
unfolding validate_handshake
validate_handshake_iff h = ground (arith, validate_modules-ok 0 h.module_manifest)
