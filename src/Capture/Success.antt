-- ===== src/Capture/Success.antt =====
-- crates/moire-trace-capture/src/lib.rs: when `capture_current_impl` returns a backtrace.
use peeps.Prelude.{
  ℕ, suc, ◌+◌, ◌-◌, ◌≤◌, ◌<◌, ◌≡◌, refl, ap, inl, inr, true, List, [], ◌∷◌, ◌++◌, string_ord,
  nat_ord, pair_ord, eqb_iff, le→ltb, length, length-append, All, Option-cases, arith, Result, ok,
  ◌>>=◌, map_err, Total, Total-intro, is_ok,
}
use peeps.BTreeMap.{BTreeMap, get, insert}
use peeps.BTreeMap.Laws.{get-insert}
use peeps.Trace.{
  InvariantError, BacktraceId, FrameKey, js_safe_int_max_u64, id_counter_max_u64,
  process_prefix_u16, new_module_path, new_rel_pc, new_backtrace_record,
}
use peeps.Trace.Layout.{next_layout}
use peeps.Capture.{
  CapturedModule, CapturedBacktrace, CaptureError, RawModuleInfo, Captured, invariant_violation,
  module_info_for_ip, module_for, frame_in, capture_ip, capture_ips, capture_current_impl,
}
use peeps.Capture.Listed.{Pairs, added}
use peeps.Capture.Resolution.{Locates, CacheOf, capture_current_impl-Locates}

-- `dladdr` knows the pointer, and its base and path are such that a frame can be made of it.
pub record IsResolvable (resolve : ℕ → Result CaptureError RawModuleInfo) (ip : ℕ) : Type 0 where
  pub info : RawModuleInfo
  pub known : resolve ip ≡ ok info
  pub named : new_module_path info.path ≡ ok info.path
  pub above : info.runtime_base ≤ ip
  pub near : ip - info.runtime_base ≤ js_safe_int_max_u64

module _ (resolve : ℕ → Result CaptureError RawModuleInfo) (seed pid : ℕ) where
  -- The identifiers suffice for `n` more modules.
  record IsReady (c : Captured) (n : ℕ) : Type 0 where
    pub cached : CacheOf resolve c.cache
    pub drawing : 0 < c.counter
    pub enough : c.counter + n ≤ suc id_counter_max_u64

  looked_up :
      (c : Captured) (n ip : ℕ) (info : RawModuleInfo)
      → resolve ip ≡ ok info
      → IsReady c n
      → (after : Captured) × (module_info_for_ip resolve c ip ≡ ok (info, after)) × IsReady after n
  unfolding module_info_for_ip
  looked_up c n ip info known r = elim (Option-cases (get ip c.cache)) [
    | inr (hit, found) ↦
        let same : hit ≡ info = ground (arith, r.cached ip hit found, known) in
        (c, rw (found, module_info_for_ip, same) refl, r)
    | inl miss ↦ (
      record c { cache = insert ip info c.cache },
      rw (miss, module_info_for_ip, known) refl,
      record {
        cached = λ q other found.
            ground (arith, get-insert q ip info c.cache, r.cached q other, eqb_iff q ip, known);
        drawing = r.drawing;
        enough = r.enough;
      },
    )
  ]

  listed :
      (c : Captured) (n : ℕ) (info : RawModuleInfo)
      → new_module_path info.path ≡ ok info.path
      → IsReady c (suc n)
      → (id : ℕ) × (after : Captured) × (module_for (process_prefix_u16 seed pid) c info
          ≡ ok (id, after))
        × IsReady after n
  unfolding module_for
  listed c n info named r =
      elim (Option-cases (get (info.runtime_base, info.path) c.modules_by_key)) [
        | inr (id, known) ↦ (
          id,
          c,
          rw (known, module_for) refl,
          record { cached = r.cached; drawing = r.drawing; enough = omega (arith, r.enough) },
        )
        | inl new ↦
            let prefix = process_prefix_u16 seed pid in
            let (id, drawn, high, low) =
              next_layout "module_id" seed pid c.counter r.drawing (omega (arith, r.enough)) in
            let one_more = ap (λ (p : Result InvariantError ℕ × ℕ). p.1) drawn in
            (
              id,
              added prefix c info id info.path,
              rw (new, module_for, drawn, named) refl,
              record {
                cached = r.cached;
                drawing = omega (arith, one_more);
                enough = omega (arith, one_more, r.enough);
              },
            )
      ]

  framed :
      (c : Captured) (n id ip : ℕ) (info : RawModuleInfo)
      → info.runtime_base ≤ ip
      → ip - info.runtime_base ≤ js_safe_int_max_u64
      → IsReady c n
      → (after : Captured) × (frame_in c id info.runtime_base ip ≡ ok after)
        × IsReady after n
        × (0 < length after.frames)
  unfolding frame_in new_rel_pc
  framed c n id ip info above near r = (
    record c {
      frames = c.frames ++ record { module_id = id; rel_pc = ip - info.runtime_base } ∷ [];
    },
    rw (le→ltb ip info.runtime_base above, le→ltb js_safe_int_max_u64 (ip - info.runtime_base) near)
        refl,
    record { cached = r.cached; drawing = r.drawing; enough = r.enough },
    ground (
      arith,
      length-append c.frames (record { module_id = id; rel_pc = ip - info.runtime_base } ∷ []),
    ),
  )

  captured :
      (c : Captured) (n ip : ℕ)
      → IsResolvable resolve ip
      → IsReady c (suc n)
      → (after : Captured) × (capture_ip resolve (process_prefix_u16 seed pid) c ip ≡ ok after)
        × IsReady after n
        × (0 < length after.frames)
  unfolding capture_ip
  captured c n ip s r =
      let (looked, found, ready) = looked_up c (suc n) ip s.info s.known r in
      let (id, known, made, still) = listed looked n s.info s.named ready in
      let (after, placed, done, some_frame) = framed known n id ip s.info s.above s.near still in
      (after, rw (found, made, placed) refl, done, some_frame)

  captured_ips :
      (ips : List ℕ) (c : Captured)
      → All (IsResolvable resolve) ips
      → IsReady c (length ips)
      → 0 < length ips + length c.frames
      → (after : Captured) × (capture_ips resolve (process_prefix_u16 seed pid) c ips ≡ ok after)
        × (0 < length after.frames)
  unfolding capture_ips
  captured_ips [] c s r h = (c, refl, omega (arith, h))
  captured_ips (ip ∷ ips) c s r h =
      let (c', made, ready, some_frame) = captured c (length ips) ip s.0 r in
      let (after, rest, frames) = captured_ips ips c' s.1 ready (omega (arith, some_frame)) in
      (after, rw (made, rest) refl, frames)

  recorded :
      (id : BacktraceId) (modules : List CapturedModule) (fs : List FrameKey)
      → 0 < length fs
      → is_ok (
          map_err (invariant_violation "backtrace_record") (new_backtrace_record id fs)
          >>= λ backtrace.
              let captured : CapturedBacktrace = record {
                backtrace = backtrace;
                modules = modules;
              } in
              ok captured)
        ≡ true
  unfolding new_backtrace_record
  recorded id modules [] h = absurd (omega (arith, h))
  recorded id modules (f ∷ fs) h = refl

  -- The capture of at least one instruction pointer succeeds when `dladdr` knows every one, with a
  -- base below it and a path that is not empty, and the counter of module identifiers has one left
  -- for each. It has one frame for each pointer, in their order: the frame names a listed module,
  -- with the base and the path that `dladdr` gives, and its relative address added to the base is
  -- the pointer. The cache held results of `dladdr`.
  pub capture_current_impl-Total :
      (cache : BTreeMap ℕ RawModuleInfo) (counter : ℕ) (backtrace_id : BacktraceId) (ips : List ℕ)
      → CacheOf resolve cache
      → 0 < counter
      → counter + length ips ≤ suc id_counter_max_u64
      → 0 < length ips
      → All (IsResolvable resolve) ips
      → Total
          (λ (b : CapturedBacktrace). Pairs (Locates resolve b.modules) ips b.backtrace.frames)
          (capture_current_impl resolve
            (process_prefix_u16 seed pid)
            cache
            counter
            backtrace_id
            ips)
  unfolding capture_current_impl
  capture_current_impl-Total cache counter backtrace_id [] sound low high one all =
      absurd (omega (arith, one))
  capture_current_impl-Total cache counter backtrace_id (ip ∷ ips) sound low high one all =
      let prefix = process_prefix_u16 seed pid in
      let start : Captured = record {
        cache = cache;
        counter = counter;
        modules_by_key = [];
        modules = [];
        frames = [];
      } in
      let (after, made, frames) =
        captured_ips (ip ∷ ips) start all (record { cached = sound; drawing = low; enough = high })
          (omega arith) in
      Total-intro _ (capture_current_impl resolve prefix cache counter backtrace_id (ip ∷ ips))
        (rw made (recorded backtrace_id after.modules after.frames frames))
        (capture_current_impl-Locates resolve prefix cache counter backtrace_id (ip ∷ ips) sound)
