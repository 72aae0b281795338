-- ===== src/Server/Symbolication/Client.antt =====
-- What a client of the stream knows: it replaces the frames that an update brings.
use mathlib.Core.Path.{subst}
use peeps.Prelude.{
  ℕ, ◌≡◌, refl, sym, ap, ◌∙◌, true, false, Option, none, some, List, [], ◌∷◌, map, nat_ord,
  string_ord, eqb_iff, ==_iff, arith, Bool-cases, Option-cases, inl, inr, is_some_and, contains,
  Distinct, All,
}
use peeps.BTreeMap.{BTreeMap, get, insert}
use peeps.BTreeMap.Laws.{get-insert}
use peeps.Trace.{FrameId}
use peeps.Types.Snapshot.{
  SnapshotBacktraceFrame, resolved, unresolved, SnapshotFrameRecord, SnapshotSymbolicationUpdate,
}
use peeps.Server.Table.{same_frame, same_line}
use peeps.Server.Symbolication.{updated_frames, collect_frame_states}

abbrev pub Frames : Type 0
Frames = BTreeMap FrameId SnapshotBacktraceFrame

abbrev pub receive : Frames → List SnapshotSymbolicationUpdate → Frames
receive client [] = client
receive client (u ∷ us) = receive (collect_frame_states client u.updated_frames) us

abbrev pub ids_of : List SnapshotFrameRecord → List FrameId
ids_of = map (λ (r : SnapshotFrameRecord). r.frame_id)

-- Each record's frame is what a map says.
abbrev pub Holds : Frames → List SnapshotFrameRecord → Type 0
Holds m = All (λ (r : SnapshotFrameRecord). get r.frame_id m ≡ some r.frame)

-- Of some identifiers the client has all that the stream remembers.
abbrev pub SyncOn : List FrameId → Frames → Frames → Type 0
SyncOn ids client previous =
    (id : FrameId) (f : SnapshotBacktraceFrame)
    → contains id ids ≡ true
    → get id previous ≡ some f
    → get id client ≡ some f

same_line-eq : (a b : Option ℕ) → same_line a b ≡ true → a ≡ b
same_line-eq none none h = refl
same_line-eq none (some b) h = absurd (cc)
same_line-eq (some a) none h = absurd (cc)
same_line-eq (some a) (some b) h = ap some ((==_iff a b).0 h)

same_line_self : (a : Option ℕ) → same_line a a ≡ true
same_line_self none = refl
same_line_self (some a) = (==_iff a a).1 refl

pub same_frame-eq : (a b : SnapshotBacktraceFrame) → same_frame a b ≡ true → a ≡ b
unfolding same_frame
same_frame-eq (resolved a) (resolved b) h = ground (
  arith,
  eqb_iff a.module_path b.module_path,
  eqb_iff a.function_name b.function_name,
  eqb_iff a.source_file b.source_file,
  same_line-eq a.line b.line,
)
same_frame-eq (resolved a) (unresolved b) h = absurd (cc)
same_frame-eq (unresolved a) (resolved b) h = absurd (cc)
same_frame-eq (unresolved a) (unresolved b) h =
    ground (arith, eqb_iff a.module_path b.module_path, eqb_iff a.reason b.reason)

pub same_frame_self : (a : SnapshotBacktraceFrame) → same_frame a a ≡ true
unfolding same_frame
same_frame_self (resolved a) = ground (
  arith,
  eqb_iff a.module_path a.module_path,
  eqb_iff a.function_name a.function_name,
  eqb_iff a.source_file a.source_file,
  same_line_self a.line,
)
same_frame_self (unresolved a) =
    ground (arith, eqb_iff a.module_path a.module_path, eqb_iff a.reason a.reason)

-- What collecting records leaves at an identifier that is in none of them.
pub get-collect_absent :
    (id : FrameId) (m : Frames) (rs : List SnapshotFrameRecord)
    → contains id (ids_of rs) ≡ false
    → get id (collect_frame_states m rs) ≡ get id m
unfolding collect_frame_states
get-collect_absent id m [] h = refl
get-collect_absent id m (r ∷ rs) h =
    get-collect_absent id (insert r.frame_id r.frame m) rs (ground arith)
    ∙ ground
        (arith, get-insert id r.frame_id r.frame m, eqb_iff id r.frame_id, eqb_iff r.frame_id id)

-- Collecting records with distinct identifiers makes them hold.
pub collect_frame_states-Holds :
    (m : Frames) (rs : List SnapshotFrameRecord)
    → Distinct (ids_of rs)
    → Holds (collect_frame_states m rs) rs
unfolding collect_frame_states
collect_frame_states-Holds m [] d = tt
collect_frame_states-Holds m (r ∷ rs) (new, d) = (
  get-collect_absent r.frame_id (insert r.frame_id r.frame m) rs new
      ∙ ground (arith, get-insert r.frame_id r.frame_id r.frame m, eqb_iff r.frame_id r.frame_id),
  collect_frame_states-Holds (insert r.frame_id r.frame m) rs d,
)

-- Nothing is updated where all holds, and the other way round.
pub updated_frames-nil :
    (m : Frames) (rs : List SnapshotFrameRecord) → Holds m rs → updated_frames m rs ≡ []
unfolding updated_frames
updated_frames-nil m [] h = refl
updated_frames-nil m (r ∷ rs) (here, h) =
    ground (arith, same_frame_self r.frame, updated_frames-nil m rs h)

pub Holds-updated_frames :
    (m : Frames) (rs : List SnapshotFrameRecord) → updated_frames m rs ≡ [] → Holds m rs
unfolding updated_frames
Holds-updated_frames m [] h = tt
Holds-updated_frames m (r ∷ rs) h = elim (Option-cases (get r.frame_id m)) [
  | inl e ↦ absurd (ground arith)
  | inr (f, e) ↦ elim (Bool-cases (same_frame f r.frame)) [
    | inl same ↦
        (e ∙ ap some (same_frame-eq f r.frame same), Holds-updated_frames m rs (ground arith))
    | inr other ↦ absurd (ground arith)
  ]
]

-- An update has only identifiers of the table.
contains-updated_frames :
    (id : FrameId) (m : Frames) (rs : List SnapshotFrameRecord)
    → contains id (ids_of rs) ≡ false
    → contains id (ids_of (updated_frames m rs)) ≡ false
unfolding updated_frames
contains-updated_frames id m [] h = refl
contains-updated_frames id m (r ∷ rs) h = ground (arith, contains-updated_frames id m rs)

-- After an update the client holds the table.
pub update-Holds :
    (client previous : Frames) (rs : List SnapshotFrameRecord)
    → Distinct (ids_of rs)
    → SyncOn (ids_of rs) client previous
    → Holds (collect_frame_states client (updated_frames previous rs)) rs
unfolding updated_frames collect_frame_states
update-Holds client previous [] d sync = tt
update-Holds client previous (r ∷ rs) (new, d) sync =
    let absent = contains-updated_frames r.frame_id previous rs new in
    let later = λ (id : FrameId) (f : SnapshotBacktraceFrame) (h : contains id (ids_of rs) ≡ true).
      sync id f (ground arith) in
    elim (Bool-cases (is_some_and (λ frame. same_frame frame r.frame) (get r.frame_id previous))) [
      | inl same ↦
          let skip : updated_frames previous (r ∷ rs) ≡ updated_frames previous rs =
            rw (same, updated_frames) refl in
          subst (λ (u : List SnapshotFrameRecord). Holds (collect_frame_states client u) (r ∷ rs))
            (sym skip)
            (
              get-collect_absent r.frame_id client (updated_frames previous rs) absent
                  ∙ elim (Option-cases (get r.frame_id previous)) [
                    | inl e ↦ absurd (ground arith)
                    | inr (f, e) ↦
                        sync r.frame_id f (ground (arith, eqb_iff r.frame_id r.frame_id)) e
                        ∙ ap some (same_frame-eq f r.frame (ground arith))
                  ],
              update-Holds client previous rs d later,
            )
      | inr other ↦
          let keep : updated_frames previous (r ∷ rs) ≡ r ∷ updated_frames previous rs =
            rw (other, updated_frames) refl in
          subst (λ (u : List SnapshotFrameRecord). Holds (collect_frame_states client u) (r ∷ rs))
            (sym keep)
            (
              get-collect_absent r.frame_id (insert r.frame_id r.frame client)
                    (updated_frames previous rs) absent
                  ∙ ground (
                    arith,
                    get-insert r.frame_id r.frame_id r.frame client,
                    eqb_iff r.frame_id r.frame_id,
                  ),
              update-Holds (insert r.frame_id r.frame client) previous rs d (λ id f h p. ground (
                arith,
                get-insert id r.frame_id r.frame client,
                eqb_iff id r.frame_id,
                later id f h p,
              )),
            )
    ]

pub Holds-sync :
    (client previous : Frames) (rs : List SnapshotFrameRecord)
    → SyncOn (ids_of rs) client previous
    → Holds previous rs
    → Holds client rs
Holds-sync client previous [] sync h = tt
Holds-sync client previous (r ∷ rs) sync (a, h) = (
  sync r.frame_id r.frame (ground (arith, eqb_iff r.frame_id r.frame_id)) a,
  Holds-sync client previous rs (λ id f e. sync id f (ground arith)) h,
)
