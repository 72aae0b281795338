-- ===== src/Tests/Capture.antt =====
-- A stack of two frames, and the capture of two addresses of one module.
use peeps.Prelude.{
  refl, ℕ, ◌≡◌, ◌≤◌, ◌<◌, ◌^◌, some, List, [], ◌∷◌, length, All, ◌==◌, if◌then◌else◌, arith, ok,
  Result, Total, eqb_iff, nat_ord,
}
use peeps.BTreeMap.{BTreeMap, get}
use peeps.Capture.{
  CaptureOptions, CaptureError, CapturedBacktrace, RawModuleInfo, collect_raw_ips,
  capture_current_impl,
}
use peeps.Capture.Walk.{collect_raw_ips-Bounded}
use peeps.Capture.Listed.{Pairs}
use peeps.Trace.{process_prefix_u16, new_module_path}
use peeps.Capture.Resolution.{Locates}
use peeps.Capture.Success.{IsResolvable, capture_current_impl-Total}

-- Frames at 4096 and 8192 with the return addresses 77 and 88.
abbrev stack : ℕ → ℕ
stack address =
    if address == 4096
    then 8192
    else if address == 4104
    then 77
    else if address == 8200
    then 88
    else 0

abbrev options : CaptureOptions
options = record { max_frames = 256; skip_frames = 1 }

collect_raw_ips-Bounded_example :
    (ips : List ℕ) × (collect_raw_ips (2 ^ 64) stack options 4096 ≡ some ips)
    × (length ips ≤ 256)
    × All (λ ip. 0 < ip) ips
collect_raw_ips-Bounded_example =
    collect_raw_ips-Bounded (2 ^ 64) stack options 4096 (λ address. ground arith) (omega arith)
      (omega arith)

abbrev app : RawModuleInfo
app = record { runtime_base = 0x1000; path = "/bin/app" }

abbrev resolve : ℕ → Result CaptureError RawModuleInfo
resolve ip = ok app

abbrev cache : BTreeMap ℕ RawModuleInfo
cache = (0x1010, app) ∷ []

new_module_path-app : new_module_path "/bin/app" ≡ ok "/bin/app"
unfolding new_module_path
new_module_path-app = refl

abbrev resolvable : (ip : ℕ) → 0x1000 ≤ ip → ip ≤ 0x2000 → IsResolvable resolve ip
resolvable ip above below = record {
  info = app;
  known = refl;
  named = new_module_path-app;
  above = above;
  near = omega (arith, below);
}

capture_current_impl-Total_example :
    Total
      (λ (b : CapturedBacktrace).
        Pairs (Locates resolve b.modules) (0x1010 ∷ 0x1020 ∷ []) b.backtrace.frames)
      (capture_current_impl resolve (process_prefix_u16 123 45) cache 1 9 (0x1010 ∷ 0x1020 ∷ []))
unfolding get
capture_current_impl-Total_example =
    capture_current_impl-Total resolve 123 45 cache 1 9 (0x1010 ∷ 0x1020 ∷ [])
      (λ ip info found. ground (arith, eqb_iff ip 0x1010)) (omega arith) (omega arith) (omega arith)
      (
        resolvable 0x1010 (omega arith) (omega arith),
        (resolvable 0x1020 (omega arith) (omega arith), tt),
      )
