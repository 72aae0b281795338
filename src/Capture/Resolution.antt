-- ===== src/Capture/Resolution.antt =====
-- crates/moire-trace-capture/src/lib.rs: the frames of `capture_current_impl` and their modules.
use mathlib.Core.Path.{subst}
use peeps.Prelude.{
  ℕ, ◌+◌, ◌-◌, ◌≡◌, refl, sym, ap, ◌∙◌, inl, inr, false, some, List, [], ◌∷◌, ◌++◌, String,
  string_ord, nat_ord, pair_ord, eqb, eqb_iff, ltb, length, Bool-cases, Option-cases, arith, Result,
  ok, err, ◌>>=◌, map_err, Ensures, Ensures-bind,
}
use peeps.BTreeMap.{BTreeMap, get, insert}
use peeps.BTreeMap.Laws.{get-insert}
use peeps.Trace.{
  InvariantError, BacktraceId, ModuleId, RuntimeBase, FrameKey, next, js_safe_int_max_u64,
  new_module_path, new_rel_pc, new_backtrace_record,
}
use peeps.Capture.{
  CapturedModule, CapturedBacktrace, CaptureError, RawModuleInfo, Captured, invariant_violation,
  module_info_for_ip, module_for, frame_in, capture_ip, capture_ips, capture_current_impl,
}
use peeps.Capture.Listed.{
  Registered, Pairs, get_elem?-left, get_elem?-last, append_nil, append_cons, Pairs-mono,
  Pairs-snoc, place_sum, same_path, added,
}

module _ (resolve : ℕ → Result CaptureError RawModuleInfo) where
  -- The frame is that of the instruction pointer: its module is listed, with the path and the base
  -- that `dladdr` gives, and its relative address is that of the pointer.
  abbrev pub Locates : List CapturedModule → ℕ → FrameKey → Type 0
  Locates ms ip f =
      (info : RawModuleInfo) × (resolve ip ≡ ok info)
      × Registered ms info.runtime_base info.path f.module_id
      × (info.runtime_base + f.rel_pc ≡ ip)

  abbrev pub CacheOf : BTreeMap ℕ RawModuleInfo → Type 0
  CacheOf cache = (ip : ℕ) (info : RawModuleInfo) → get ip cache ≡ some info → resolve ip ≡ ok info

  record IsSound (c : Captured) (done : List ℕ) : Type 0 where
    pub cached : CacheOf c.cache
    pub keyed :
        (base : RuntimeBase) (path : String) (id : ModuleId)
        → get (base, path) c.modules_by_key ≡ some id
        → Registered c.modules base path id
    pub located : Pairs (Locates c.modules) done c.frames

  lookup-IsSound :
      (c : Captured) (done : List ℕ) (ip : ℕ)
      → IsSound c done
      → Ensures
          (λ (r : RawModuleInfo × Captured). (resolve ip ≡ ok r.0) × IsSound r.1 done)
          (module_info_for_ip resolve c ip)
  unfolding module_info_for_ip
  lookup-IsSound c done ip s = elim (Option-cases (get ip c.cache)) [
    | inr (info, hit) ↦ rw (hit, module_info_for_ip, Ensures) (s.cached ip info hit, s)
    | inl miss ↦ rw (miss, module_info_for_ip) (resolved (resolve ip) refl)
  ]
    where
      resolved :
          (r : Result CaptureError RawModuleInfo)
          → resolve ip ≡ r
          → Ensures
              (λ (r : RawModuleInfo × Captured). (resolve ip ≡ ok r.0) × IsSound r.1 done)
              (r >>= λ info. ok (info, record c { cache = insert ip info c.cache }))
      resolved (err e) h = tt
      resolved (ok info) h = (
        h,
        record {
          cached = λ q other found.
              ground (arith, get-insert q ip info c.cache, s.cached q other, eqb_iff q ip, h);
          keyed = s.keyed;
          located = s.located;
        },
      )

  -- The keys after a new module was listed.
  keyed-added :
      (prefix : ℕ) (c : Captured) (info : RawModuleInfo) (id : ModuleId)
      → ((base : RuntimeBase) (path : String) (id : ModuleId)
          → get (base, path) c.modules_by_key ≡ some id
          → Registered c.modules base path id)
      → (base : RuntimeBase) (path : String) (other : ModuleId)
      → get (base, path) (added prefix c info id info.path).modules_by_key ≡ some other
      → Registered (added prefix c info id info.path).modules base path other
  keyed-added prefix c info id keyed base path other found =
      let key : RuntimeBase × String = (base, path) in
      let mine : RuntimeBase × String = (info.runtime_base, info.path) in
      let law = get-insert key mine id c.modules_by_key in
      elim (Bool-cases (eqb key mine)) [
        | inl same ↦
            let match : key ≡ mine = (eqb_iff key mine).0 same in
            let id_match : id ≡ other = ground (arith, law, found, same) in
            let base_match = ap (λ (p : RuntimeBase × String). p.0) match in
            let path_match = ap (λ (p : RuntimeBase × String). p.1) match in
            (
              length c.modules,
              get_elem?-last c.modules _ ∙ rw (id_match, base_match, path_match) refl,
            )
        | inr different ↦
            let before : get key c.modules_by_key ≡ some other =
              ground (arith, law, found, different) in
            let (k, at) = keyed base path other before in (k, get_elem?-left c.modules _ k _ at)
      ]

  -- `module_for` gives the identifier of a listed module.
  module_for-IsSound :
      (prefix : ℕ) (c : Captured) (done : List ℕ) (info : RawModuleInfo)
      → IsSound c done
      → Ensures
          (λ (r : ModuleId × Captured).
            Registered r.1.modules info.runtime_base info.path r.0 × IsSound r.1 done)
          (module_for prefix c info)
  unfolding module_for
  module_for-IsSound prefix c done info s =
      elim (Option-cases (get (info.runtime_base, info.path) c.modules_by_key)) [
        | inr (id, known) ↦
            rw (known, module_for, Ensures) (s.keyed info.runtime_base info.path id known, s)
        | inl new ↦
            rw (new, module_for)
              (drawn (next "module_id" js_safe_int_max_u64 prefix c.counter).0
                (new_module_path info.path) refl)
      ]
    where
      sound : (id : ModuleId) → IsSound (added prefix c info id info.path) done
      sound id = record {
        cached = s.cached;
        keyed = keyed-added prefix c info id s.keyed;
        located =
            Pairs-mono (Locates c.modules) (Locates (added prefix c info id info.path).modules) done
              c.frames
              (λ ip f (i, hit, (k, at), sum). (i, hit, (k, get_elem?-left c.modules _ k _ at), sum))
              s.located;
      }

      drawn :
          (id : Result InvariantError ModuleId) (path : Result InvariantError String)
          → new_module_path info.path ≡ path
          → Ensures
              (λ (r : ModuleId × Captured).
                Registered r.1.modules info.runtime_base info.path r.0 × IsSound r.1 done)
              (map_err (invariant_violation "module_id") id >>= λ id.
                map_err (invariant_violation "module_path") path >>= λ path.
                ok (id, added prefix c info id path))
      drawn (err e) path h = tt
      drawn (ok id) (err e) h = tt
      drawn (ok id) (ok path) h =
          subst
            (λ q.
              Registered (added prefix c info id q).modules info.runtime_base info.path id
              × IsSound (added prefix c info id q) done)
            (sym (same_path info.path path h))
            ((length c.modules, get_elem?-last c.modules _), sound id)

  frame_in-IsSound :
      (c : Captured) (done : List ℕ) (info : RawModuleInfo) (id : ModuleId) (ip : ℕ)
      → resolve ip ≡ ok info
      → Registered c.modules info.runtime_base info.path id
      → IsSound c done
      → Ensures (λ after. IsSound after (done ++ ip ∷ [])) (frame_in c id info.runtime_base ip)
  unfolding frame_in
  frame_in-IsSound c done info id ip hit listed s = elim (Bool-cases (ltb ip info.runtime_base)) [
    | inl below ↦ rw (below, Ensures) tt
    | inr above ↦ rw above (placed above (new_rel_pc (ip - info.runtime_base)) refl)
  ]
    where
      placed :
          ltb ip info.runtime_base ≡ false
          → (r : Result InvariantError ℕ) → new_rel_pc (ip - info.runtime_base) ≡ r
          → Ensures
              (λ after. IsSound after (done ++ ip ∷ []))
              (map_err (invariant_violation "rel_pc") r >>= λ rel_pc.
                ok (record c {
                  frames = c.frames ++ record { module_id = id; rel_pc = rel_pc } ∷ [];
                }))
      placed above (err e) h = tt
      placed above (ok rel_pc) h = record {
        cached = s.cached;
        keyed = s.keyed;
        located =
            Pairs-snoc (Locates c.modules) done c.frames ip
              (record { module_id = id; rel_pc = rel_pc }) s.located
              (info, hit, listed, place_sum ip info.runtime_base rel_pc above h);
      }

  capture_ip-IsSound :
      (prefix : ℕ) (c : Captured) (done : List ℕ) (ip : ℕ)
      → IsSound c done
      → Ensures (λ after. IsSound after (done ++ ip ∷ [])) (capture_ip resolve prefix c ip)
  unfolding capture_ip
  capture_ip-IsSound prefix c done ip s =
      Ensures-bind (λ (r : RawModuleInfo × Captured). (resolve ip ≡ ok r.0) × IsSound r.1 done)
        (λ after. IsSound after (done ++ ip ∷ [])) (module_info_for_ip resolve c ip) _
        (lookup-IsSound c done ip s)
        λ r (hit, sound).
          Ensures-bind
            (λ (m : ModuleId × Captured).
              Registered m.1.modules r.0.runtime_base r.0.path m.0 × IsSound m.1 done)
            (λ after. IsSound after (done ++ ip ∷ [])) (module_for prefix r.1 r.0) _
            (module_for-IsSound prefix r.1 done r.0 sound)
            λ m (listed, known). frame_in-IsSound m.1 done r.0 m.0 ip hit listed known

  capture_ips-IsSound :
      (prefix : ℕ) (c : Captured) (done ips : List ℕ)
      → IsSound c done
      → Ensures (λ after. IsSound after (done ++ ips)) (capture_ips resolve prefix c ips)
  unfolding capture_ips
  capture_ips-IsSound prefix c done [] s = subst (IsSound c) (sym (append_nil done)) s
  capture_ips-IsSound prefix c done (ip ∷ ips) s =
      Ensures-bind (λ after. IsSound after (done ++ ip ∷ []))
        (λ after. IsSound after (done ++ ip ∷ ips)) (capture_ip resolve prefix c ip) _
        (capture_ip-IsSound prefix c done ip s)
        λ c' sound.
          subst (λ l. Ensures (λ after. IsSound after l) (capture_ips resolve prefix c' ips))
            (append_cons done ip ips) (capture_ips-IsSound prefix c' (done ++ ip ∷ []) ips sound)

  -- A capture has, if it succeeds, one frame for each instruction pointer, in their order. The frame
  -- names a listed module, with the base and the path that `dladdr` gives for the pointer, and its
  -- relative address added to the base is the pointer. The cache held results of `dladdr`.
  pub capture_current_impl-Locates :
      (prefix : ℕ) (cache : BTreeMap ℕ RawModuleInfo) (counter : ℕ) (backtrace_id : BacktraceId)
      (ips : List ℕ)
      → CacheOf cache
      → Ensures
          (λ (b : CapturedBacktrace). Pairs (Locates b.modules) ips b.backtrace.frames)
          (capture_current_impl resolve prefix cache counter backtrace_id ips)
  unfolding capture_current_impl get new_backtrace_record
  capture_current_impl-Locates prefix cache counter backtrace_id [] sound = tt
  capture_current_impl-Locates prefix cache counter backtrace_id (ip ∷ ips) sound =
      let start : Captured = record {
        cache = cache;
        counter = counter;
        modules_by_key = [];
        modules = [];
        frames = [];
      } in
      Ensures-bind (λ after. IsSound after (ip ∷ ips)) _
        (capture_ips resolve prefix start (ip ∷ ips)) _
        (capture_ips-IsSound prefix start [] (ip ∷ ips)
          (record { cached = sound; keyed = λ base path id found. absurd (cc); located = tt }))
        λ c s. recorded c s c.frames refl
    where
      recorded :
          (c : Captured)
          → IsSound c (ip ∷ ips)
          → (fs : List FrameKey) → c.frames ≡ fs
          → Ensures
              (λ (b : CapturedBacktrace). Pairs (Locates b.modules) (ip ∷ ips) b.backtrace.frames)
              (map_err
                  (invariant_violation "backtrace_record")
                  (new_backtrace_record backtrace_id fs)
                >>= λ backtrace. ok (record { backtrace = backtrace; modules = c.modules }))
      recorded c s [] e = tt
      recorded c s (f ∷ fs) e = subst (Pairs (Locates c.modules) (ip ∷ ips)) e s.located
