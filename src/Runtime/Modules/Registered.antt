-- ===== src/Runtime/Modules/Registered.antt =====
-- The table of modules stays consistent and only grows.
use peeps.Prelude.{
  ap, sym, ◌∙◌, ℕ, ◌+◌, ◌%◌, ◌^◌, ◌≤◌, ◌<◌, ◌≡◌, refl, Bool, true, false, none, some, String,
  nat_ord, string_ord, pair_ord, eqb, eqb_iff, ok, Result, arith, Option-cases, inl, inr,
  if◌then◌else◌,
}
use peeps.BTreeMap.{get, contains_key}
use peeps.BTreeMap.Laws.{get-insert}
use peeps.Trace.{ModuleId, id_counter_max_u64, process_prefix_u16}
use peeps.Trace.Layout.{next_layout}
use peeps.Wire.Messages.{ModuleManifestEntry}
use peeps.Runtime.Modules.{
  ModuleKey, Registry, global_for, manifest_entry, add_module, RegistryPanic,
}

-- The entry of a module, by its base and its path.
abbrev pub IsEntry : ModuleKey → ModuleManifestEntry → Type 0
IsEntry key e = (e.runtime_base ≡ key.0) × (e.module_path ≡ key.1)

-- Every known module has its entry, every entry stands under its identifier, which was drawn, and
-- the revision counts no more than the draws.
pub record IsRegistry (g : Registry) : Type 0 where
  pub keyed :
      (key : ModuleKey) (id : ModuleId)
      → get key g.modules.by_key ≡ some id
      → (e : ModuleManifestEntry) × (get id g.modules.by_id ≡ some e) × IsEntry key e
  pub drawn : (id : ModuleId) → contains_key id g.modules.by_id ≡ true → id % 2 ^ 37 < g.counter
  pub numbered :
      (id : ModuleId) (e : ModuleManifestEntry) → get id g.modules.by_id ≡ some e → e.module_id ≡ id
  pub revised : g.modules.revision < g.counter

-- Entries stay, the revision does not fall, and at the same revision the entries are the same.
pub record Grows (g : Registry) (h : Registry) : Type 0 where
  pub kept :
      (id : ModuleId) (e : ModuleManifestEntry)
      → get id g.modules.by_id ≡ some e
      → get id h.modules.by_id ≡ some e
  pub later : g.modules.revision ≤ h.modules.revision
  pub same : h.modules.revision ≡ g.modules.revision → h.modules.by_id ≡ g.modules.by_id

pub Grows-refl : (g : Registry) → Grows g g
Grows-refl g = record { kept = λ id e h. h; later = omega arith; same = λ h. refl }

pub Grows-trans : (f g h : Registry) → Grows f g → Grows g h → Grows f h
Grows-trans f g h a b = record {
  kept = λ id e q. b.kept id e (a.kept id e q);
  later = omega (arith, a.later, b.later);
  same = λ q. b.same (omega (arith, a.later, b.later)) ∙ a.same (omega (arith, a.later, b.later));
}

module _ (prefix : ℕ) (arch : String) (key : ModuleKey) (id : ModuleId) (g : Registry) where
  abbrev grown : Registry
  grown = record { modules = add_module prefix arch key id g.modules; counter = g.counter + 1 }

  fresh : IsRegistry g → id % 2 ^ 37 ≡ g.counter → get id g.modules.by_id ≡ none
  fresh inv low = elim (Option-cases (get id g.modules.by_id)) [
    | inl e ↦ e
    | inr (e, there) ↦ absurd (let below = inv.drawn id (rw there refl) in omega arith)
  ]

  grown-keyed :
      IsRegistry g
      → get id g.modules.by_id ≡ none
      → (q : ModuleKey) (i : ModuleId) → get q grown.modules.by_key ≡ some i
      → (e : ModuleManifestEntry) × (get i grown.modules.by_id ≡ some e) × IsEntry q e
  grown-keyed inv new q i h =
      cases (eqb q key) refl (rw (get-insert q key id g.modules.by_key) at h)
    where
      cases :
          (b : Bool)
          → eqb q key ≡ b
          → (if b then some id else get q g.modules.by_key) ≡ some i
          → (e : ModuleManifestEntry) × (get i grown.modules.by_id ≡ some e) × IsEntry q e
      cases true e d =
          let same : q ≡ key = (eqb_iff q key).0 e in
          (
            manifest_entry prefix arch key id,
            ground (
              arith,
              d,
              get-insert i id (manifest_entry prefix arch key id) g.modules.by_id,
              eqb_iff i id,
            ),
            (ap (λ (k : ModuleKey). k.0) (sym same), ap (λ (k : ModuleKey). k.1) (sym same)),
          )
      cases false e d =
          let (old, there, is_entry) = inv.keyed q i d in
          (
            old,
            ground (
              arith,
              there,
              new,
              get-insert i id (manifest_entry prefix arch key id) g.modules.by_id,
              eqb_iff i id,
            ),
            is_entry,
          )

  grown-IsRegistry :
      IsRegistry g → id % 2 ^ 37 ≡ g.counter → g.counter ≤ id_counter_max_u64 → IsRegistry grown
  grown-IsRegistry inv low room = record {
    keyed = grown-keyed inv (fresh inv low);
    drawn = λ i h. ground (
      arith,
      h,
      low,
      inv.drawn i,
      get-insert i id (manifest_entry prefix arch key id) g.modules.by_id,
      eqb_iff i id,
    );
    numbered = λ i e h. ground (
      arith,
      h,
      inv.numbered i e,
      get-insert i id (manifest_entry prefix arch key id) g.modules.by_id,
      eqb_iff i id,
    );
    revised = omega (arith, inv.revised);
  }

  Grows-grown :
      IsRegistry g → id % 2 ^ 37 ≡ g.counter → g.counter ≤ id_counter_max_u64 → Grows g grown
  Grows-grown inv low room = record {
    kept = λ i e h. ground (
      arith,
      h,
      fresh inv low,
      get-insert i id (manifest_entry prefix arch key id) g.modules.by_id,
      eqb_iff i id,
    );
    later = omega (arith, inv.revised);
    same = λ h. absurd (omega (arith, inv.revised));
  }

-- What a lookup with `global_for` leaves.
pub record Registers (key : ModuleKey) (g : Registry)
    (r : Result RegistryPanic (ModuleId × Registry)) : Type 0 where
  pub id : ModuleId
  pub registry : Registry
  pub made : r ≡ ok (id, registry)
  pub consistent : IsRegistry registry
  pub grows : Grows g registry
  pub counted : registry.counter ≤ g.counter + 1
  pub entry : ModuleManifestEntry
  pub found : get id registry.modules.by_id ≡ some entry
  pub is_entry : IsEntry key entry

module _ (seed pid : ℕ) (arch : String) where
  -- A key finds its entry, whether it was known or not, as long as an identifier is left.
  pub global_for-Registers :
      (key : ModuleKey) (g : Registry)
      → IsRegistry g
      → g.counter ≤ id_counter_max_u64
      → Registers key g (global_for (process_prefix_u16 seed pid) arch key g)
  unfolding global_for
  global_for-Registers key g inv room = elim (Option-cases (get key g.modules.by_key)) [
    | inr (id, known) ↦
        let (e, there, is_entry) = inv.keyed key id known in
        record {
          id = id;
          registry = g;
          made = rw (known, global_for) refl;
          consistent = inv;
          grows = Grows-refl g;
          counted = omega arith;
          entry = e;
          found = there;
          is_entry = is_entry;
        }
    | inl new ↦
        let prefix = process_prefix_u16 seed pid in
        let (id, made, high, low) =
          next_layout "module_id" seed pid g.counter (omega (arith, inv.revised)) room in
        record {
          id = id;
          registry = grown prefix arch key id g;
          made = rw (new, global_for, made) refl;
          consistent = grown-IsRegistry prefix arch key id g inv low room;
          grows = Grows-grown prefix arch key id g inv low room;
          counted = omega arith;
          entry = manifest_entry prefix arch key id;
          found = ground (
            arith,
            get-insert id id (manifest_entry prefix arch key id) g.modules.by_id,
            eqb_iff id id,
          );
          is_entry = (refl, refl);
        }
  ]
