-- ===== src/Runtime/Push/Covered.antt =====
-- The server can store what a flush sends: crates/moire-runtime/src/dashboard.rs against
-- crates/moire-web/src/db/persist.rs.
use peeps.Prelude.{
  ◌≡◌, refl, sym, ◌∙◌, true, false, Option, none, some, List, [], ◌∷◌, map, nat_ord, eqb, eqb_iff,
  ok, arith, is_blank, is_some, Option-cases, Bool-cases, inl, inr, if◌then◌else◌, All, ◌==◌,
  ==_iff,
}
use peeps.BTreeMap.{BTreeMap, get, retain, values, contains_key}
use peeps.Trace.{ModuleId, BacktraceId, FrameKey, BacktraceRecord}
use peeps.Wire.Messages.{
  ClientMessage, Handshake, ModuleManifestEntry, handshake, backtrace_record, delta_batch, cut_ack,
  snapshot_reply, error,
}
use peeps.Server.{StoredModuleManifestEntry}
use peeps.Server.Handshake.{
  validate_handshake, BacktraceFramePersist, backtrace_frames_for_store,
  into_stored_module_manifest, into_stored,
}
use peeps.Server.Handshake.Validation.{IsUsable, validate_handshake_iff}
use peeps.Server.Handshake.Frames.{AreRows, last_module, backtrace_frames_for_store-AreRows}
use peeps.Runtime.Modules.{
  Registry, Records, module_manifest_snapshot, backtrace_records_after, is_after,
}
use peeps.Runtime.Modules.Registered.{IsRegistry, Grows}
use peeps.Runtime.Push.{
  Process, Identity, Session, flush_backtrace_records, send_handshake_if_manifest_changed,
}

-- Every frame of a record names a module of the table.
abbrev pub IsCovered : Registry → BacktraceRecord → Type 0
IsCovered g r = All (λ (f : FrameKey). contains_key f.module_id g.modules.by_id ≡ true) r.frames

abbrev pub AreCovered : Process → Type 0
AreCovered p = All (λ (e : BacktraceId × BacktraceRecord). IsCovered p.registry e.1) p.records

-- With a manifest known, every record that comes is stored, as the rows that its manifest gives; a
-- handshake is accepted and replaces the manifest.
abbrev pub AreStored : List ModuleManifestEntry → List ClientMessage → Type 0
AreStored known [] = Unit
AreStored known (handshake h ∷ messages) =
    (validate_handshake h ≡ ok tt) × AreStored h.module_manifest messages
AreStored known (backtrace_record r ∷ messages) =
    ((rows : List BacktraceFramePersist) × (backtrace_frames_for_store
          (into_stored_module_manifest known) r
        ≡ ok rows)
      × AreRows (into_stored_module_manifest known) 0 r.frames rows)
    × AreStored known messages
AreStored known (snapshot_reply r ∷ messages) = AreStored known messages
AreStored known (delta_batch b ∷ messages) = AreStored known messages
AreStored known (cut_ack a ∷ messages) = AreStored known messages
AreStored known (error e ∷ messages) = AreStored known messages

-- The handshake with the modules of a table.
abbrev greeting : Identity → Registry → Handshake
greeting me g = record {
  process_id = me.process_id;
  process_name = me.process_name;
  pid = me.pid;
  args = me.args;
  env = me.env;
  module_manifest = values g.modules.by_id;
}

last_module-some :
    (id : ModuleId) (es : List StoredModuleManifestEntry) (e : StoredModuleManifestEntry)
    → is_some (last_module id es (some e)) ≡ true
last_module-some id [] e = refl
last_module-some id (x ∷ es) e =
    elim (eqb id x.module_id)
      as (λ b. is_some (last_module id es (if b then some x else some e)) ≡ true) [
        | true ↦ last_module-some id es x
        | false ↦ last_module-some id es e
      ]

-- The entry of a module is in the manifest that the table gives.
last_module-values :
    (id : ModuleId) (m : BTreeMap ModuleId ModuleManifestEntry) (e : ModuleManifestEntry)
    (found : Option StoredModuleManifestEntry)
    → get id m ≡ some e
    → e.module_id ≡ id
    → is_some (last_module id (into_stored_module_manifest (values m)) found) ≡ true
unfolding get into_stored_module_manifest into_stored
last_module-values id [] e found h named = absurd (cc)
last_module-values id ((k, x) ∷ m) e found h named = elim (Bool-cases (eqb id k)) [
  | inl here ↦
      let same : e.module_id ≡ x.module_id = ground arith in
      rw ((eqb_iff id x.module_id).1 (sym named ∙ same), last_module)
        (last_module-some id (map into_stored (values m)) (into_stored x))
  | inr further ↦ last_module-values id m e _ (ground arith) named
]

module _ (g : Registry) (inv : IsRegistry g) where
  covered-known :
      (fs : List FrameKey)
      → All (λ (f : FrameKey). contains_key f.module_id g.modules.by_id ≡ true) fs
      → All
          (λ (f : FrameKey).
            is_some
              (last_module f.module_id (into_stored_module_manifest (values g.modules.by_id)) none)
            ≡ true)
          fs
  covered-known [] h = tt
  covered-known (f ∷ fs) (here, h) = (
    elim (Option-cases (get f.module_id g.modules.by_id)) [
      | inl gone ↦ absurd (cc)
      | inr (e, there) ↦
          last_module-values f.module_id g.modules.by_id e none there
            (inv.numbered f.module_id e there)
    ],
    covered-known fs h,
  )

  AreStored-records :
      (rs : List BacktraceRecord)
      → All (IsCovered g) rs
      → AreStored (values g.modules.by_id) (map backtrace_record rs)
  AreStored-records [] h = tt
  AreStored-records (r ∷ rs) (here, h) = (
    backtrace_frames_for_store-AreRows (into_stored_module_manifest (values g.modules.by_id)) r
        (covered-known r.frames here),
    AreStored-records rs h,
  )

  after-IsCovered :
      (last : Option BacktraceId) (records : Records)
      → All (λ (e : BacktraceId × BacktraceRecord). IsCovered g e.1) records
      → All (IsCovered g) (backtrace_records_after last records)
  unfolding backtrace_records_after retain
  after-IsCovered last [] h = tt
  after-IsCovered last ((id, r) ∷ records) (here, h) =
      elim (is_after last id)
        as (λ b. All (IsCovered g) (
          values (
            if b
            then (id, r) ∷ retain (λ i _. is_after last i) records
            else retain (λ i _. is_after last i) records))) [
              | true ↦ (here, after-IsCovered last records h)
              | false ↦ after-IsCovered last records h
            ]

-- A covered record stays covered while the table grows.
Grows-IsCovered :
    (g h : Registry)
    → Grows g h
    → (fs : List FrameKey)
    → All (λ (f : FrameKey). contains_key f.module_id g.modules.by_id ≡ true) fs
    → All (λ (f : FrameKey). contains_key f.module_id h.modules.by_id ≡ true) fs
Grows-IsCovered g h grows [] c = tt
Grows-IsCovered g h grows (f ∷ fs) (here, c) = (
  elim (Option-cases (get f.module_id g.modules.by_id)) [
    | inl gone ↦ absurd (cc)
    | inr (e, there) ↦ rw (grows.kept f.module_id e there) refl
  ],
  Grows-IsCovered g h grows fs c,
)

Grows-AreCovered :
    (g h : Registry) (records : Records)
    → Grows g h
    → All (λ (e : BacktraceId × BacktraceRecord). IsCovered g e.1) records
    → All (λ (e : BacktraceId × BacktraceRecord). IsCovered h e.1) records
Grows-AreCovered g h [] grows c = tt
Grows-AreCovered g h ((id, r) ∷ records) grows (here, c) =
    (Grows-IsCovered g h grows r.frames here, Grows-AreCovered g h records grows c)

-- A flush finds the records of a process at one time and the table of modules at a later one, to
-- which the table has grown. The table covers the records at the first time, and is consistent with
-- usable modules at the second, and the name and the identifier of the process are not blank. If
-- the server knows the manifest of the revision that the session sent last, then of the messages of
-- the flush, taken in order, the server accepts the handshake, if there is one, and stores every
-- backtrace record, as the rows of the manifest that it knows by then.
pub flush-AreStored :
    (me : Identity) (p q : Process) (s : Session) (known : List ModuleManifestEntry)
    → AreCovered p
    → Grows p.registry q.registry
    → IsRegistry q.registry
    → All IsUsable (values q.registry.modules.by_id)
    → is_blank me.process_id ≡ false
    → is_blank me.process_name ≡ false
    → (q.registry.modules.revision ≡ s.last_sent_manifest_revision
        → known ≡ values q.registry.modules.by_id)
    → AreStored known (flush_backtrace_records me q.registry p.records s).1
unfolding flush_backtrace_records send_handshake_if_manifest_changed module_manifest_snapshot
flush-AreStored me p q s known covered grows inv usable id_text name_text synced =
    let stored =
      AreStored-records q.registry inv (backtrace_records_after s.last_sent_backtrace_id p.records)
        (after-IsCovered q.registry inv s.last_sent_backtrace_id p.records
          (Grows-AreCovered p.registry q.registry p.records grows covered)) in
    elim (Bool-cases (q.registry.modules.revision == s.last_sent_manifest_revision)) [
      | inl same ↦
          rw (same, flush_backtrace_records, send_handshake_if_manifest_changed)
            (rw (synced ((==_iff _ _).0 same)) stored)
      | inr changed ↦
          rw (changed, flush_backtrace_records, send_handshake_if_manifest_changed)
            (
              (validate_handshake_iff (greeting me q.registry)).1 (id_text, name_text, usable),
              stored,
            )
    ]
