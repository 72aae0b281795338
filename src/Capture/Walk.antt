-- ===== src/Capture/Walk.antt =====
-- crates/moire-trace-capture/src/lib.rs: the walk of `collect_raw_ips`.
use peeps.Prelude.{
  ℕ, zero, suc, ◌+◌, ◌%◌, ◌^◌, ◌≤◌, ◌<◌, ◌≡◌, refl, inl, inr, some, List, [], ◌++◌, ltb, leb, ◌==◌,
  not, ◌||◌, length, All, Bool-cases, length-append, All-append, arith,
}
use peeps.Capture.{CaptureOptions, take_ip, walk, collect_raw_ips}

-- What one round pushes is counted, and is not zero.
take_ip_lem :
    (return_ip skip left : ℕ)
    → 0 < left
    → let (skip', left', pushed) = take_ip return_ip skip left in
      (length pushed + left' ≡ left) × All (λ ip. 0 < ip) pushed
take_ip_lem return_ip skip left h = elim (Bool-cases (return_ip == 0)) [
  | inl none_here ↦ rw none_here (omega arith, tt)
  | inr here ↦ elim (Bool-cases (ltb 0 skip)) [
    | inl skipped ↦ rw (here, skipped) (omega arith, tt)
    | inr taken ↦ rw (here, taken) (omega arith, (ground (arith, here), tt))
  ]
]

-- The frame pointers of the rounds ascend.
walk-Bounded :
    (fuel : ℕ) (word : ℕ → ℕ) (frame_ptr skip left : ℕ)
    → ((address : ℕ) → word address < 2 ^ 64)
    → frame_ptr < 2 ^ 64
    → 2 ^ 64 ≤ frame_ptr + fuel
    → (ips : List ℕ) × (walk fuel word frame_ptr skip left ≡ some ips)
      × (length ips ≤ left)
      × All (λ ip. 0 < ip) ips
unfolding walk
walk-Bounded zero word frame_ptr skip left words low high = absurd (omega (arith, low, high))
walk-Bounded (suc fuel) word frame_ptr skip left words low high =
    let round = take_ip (word (frame_ptr + 8)) skip left in
    elim (Bool-cases (frame_ptr == 0 || leb left 0 || not (frame_ptr % 8 == 0))) [
      | inl stop ↦ ([], rw (stop, walk) refl, omega arith, tt)
      | inr go ↦
          let (counted, nonzero) =
            take_ip_lem (word (frame_ptr + 8)) skip left (ground (arith, go)) in
          elim (Bool-cases (word frame_ptr == 0 || leb (word frame_ptr) frame_ptr)) [
            | inl top ↦ (round.2, rw (go, top, walk) refl, ground (arith, counted), nonzero)
            | inr up ↦
                let (ips, walked, short, rest) =
                  walk-Bounded fuel word (word frame_ptr) round.0 round.1 words (words frame_ptr)
                    (ground (arith, up, high)) in
                (
                  round.2 ++ ips,
                  rw (go, up, walked, walk) refl,
                  ground (arith, counted, short, length-append round.2 ips),
                  All-append (λ ip. 0 < ip) round.2 ips nonzero rest,
                )
          ]
    ]

-- `collect_raw_ips` ends: fuel for the addresses from the first frame pointer up to 2^64 is enough
-- when every machine word is below 2^64. It gives at most `max_frames` instruction pointers, none of
-- them zero.
pub collect_raw_ips-Bounded :
    (fuel : ℕ) (word : ℕ → ℕ) (options : CaptureOptions) (frame_ptr : ℕ)
    → ((address : ℕ) → word address < 2 ^ 64)
    → frame_ptr < 2 ^ 64
    → 2 ^ 64 ≤ frame_ptr + fuel
    → (ips : List ℕ) × (collect_raw_ips fuel word options frame_ptr ≡ some ips)
      × (length ips ≤ options.max_frames)
      × All (λ ip. 0 < ip) ips
unfolding collect_raw_ips
collect_raw_ips-Bounded fuel word options frame_ptr words low high =
    walk-Bounded fuel word frame_ptr options.skip_frames options.max_frames words low high
