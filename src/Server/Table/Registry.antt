-- ===== src/Server/Table/Registry.antt =====
-- The registry of frame identifiers, `FRAME_ID_REGISTRY` of crates/moire-web/src/snapshot/table.rs.
use peeps.Prelude.{
  ◌%◌, ◌^◌, ◌<◌, ◌≡◌, refl, true, none, some, [], ◌∷◌, String, nat_ord, string_ord, pair_ord, eqb,
  arith, ◌==◌, ==_iff, Bool-cases, Option-cases, inl, inr, All,
}
use peeps.BTreeMap.{BTreeMap, get, contains_key}
use peeps.Trace.{FrameId, RelPc}
use peeps.Server.Table.{Catalog, FrameDedupKey, find_key, lookup_frame_source_by_raw}

-- The table uses the identifiers of the registry, each of its frames is there, the identifiers were
-- drawn, and two keys never share one.
pub record IsCatalog (c : Catalog) : Type 0 where
  pub kept : All (λ (e : FrameDedupKey × FrameId). get e.0 c.registry ≡ some e.1) c.frame_id_by_key
  pub listed :
      (key : FrameDedupKey) (id : FrameId)
      → get key c.frame_id_by_key ≡ some id
      → contains_key id c.frame_by_id ≡ true
  pub drawn :
      (key : FrameDedupKey) (id : FrameId) → get key c.registry ≡ some id → id % 2 ^ 37 < c.counter
  pub apart :
      (k j : FrameDedupKey) (id : FrameId)
      → get k c.registry ≡ some id
      → get j c.registry ≡ some id
      → k ≡ j
  pub single : All (λ (e : FrameDedupKey × FrameId). get e.0 c.registry ≡ some e.1) c.registry
  pub started : 0 < c.counter

find_key-none :
    (key : FrameDedupKey) (id : FrameId) (m : BTreeMap FrameDedupKey FrameId)
    → get key m ≡ some id
    → ¬ (find_key id m ≡ none)
unfolding find_key get
find_key-none key id [] h e = absurd (ground arith)
find_key-none key id ((j, i) ∷ m) h e = elim (Bool-cases (eqb key j)) [
  | inl same ↦ ground (arith, ==_iff i id)
  | inr other ↦ elim (Bool-cases (i == id)) [
    | inl found ↦ ground arith
    | inr lost ↦ find_key-none key id m (ground arith) (ground arith)
  ]
]

module _ (c : Catalog) (inv : IsCatalog c) where
  pub find_key-registry :
      (id : FrameId) (k : FrameDedupKey) (m : BTreeMap FrameDedupKey FrameId)
      → All (λ (e : FrameDedupKey × FrameId). get e.0 c.registry ≡ some e.1) m
      → find_key id m ≡ some k
      → get k c.registry ≡ some id
  unfolding find_key
  find_key-registry id k [] h e = absurd (cc)
  find_key-registry id k ((j, i) ∷ m) (here, h) e = elim (Bool-cases (i == id)) [
    | inl same ↦ ground (arith, ==_iff i id)
    | inr other ↦ find_key-registry id k m h (ground arith)
  ]

  -- The registry leads an identifier that it gave back to the module and the address of its key.
  pub lookup_frame_source_by_raw-registered :
      (module_identity module_path : String) (rel_pc : RelPc) (id : FrameId)
      → get (module_identity, (module_path, rel_pc)) c.registry ≡ some id
      → lookup_frame_source_by_raw id c.registry ≡ some (id, (module_identity, rel_pc))
  unfolding lookup_frame_source_by_raw
  lookup_frame_source_by_raw-registered module_identity module_path rel_pc id there =
      elim (Option-cases (find_key id c.registry)) [
        | inl e ↦
            absurd (find_key-none (module_identity, (module_path, rel_pc)) id c.registry there e)
        | inr (k, e) ↦
            let same =
              inv.apart k (module_identity, (module_path, rel_pc)) id
                (find_key-registry id k c.registry inv.single e) there in
            rw (e, lookup_frame_source_by_raw, same) refl
      ]
