-- ===== src/Trace/Layout.antt =====
-- The layout of the identifiers that `next` hands out: a 16-bit prefix over a 37-bit counter.
use peeps.Prelude.{
  ℕ, ◌+◌, ◌*◌, ◌/◌, ◌%◌, ◌^◌, ◌≤◌, ◌<◌, ◌≡◌, arith, String, ok, some, bit_or-eq-add, bit_and_mask,
  bit_xor,
}
use peeps.Trace.{
  id_counter_max_u64, js_safe_int_max_u64, process_prefix_u16, next, new_runtime_base, new_rel_pc,
  checked_add_rel_pc,
}

process_prefix_u16-lt : (seed pid : ℕ) → process_prefix_u16 seed pid < 2 ^ 16
unfolding process_prefix_u16
process_prefix_u16-lt seed pid = omega (arith, bit_and_mask 16 (bit_xor seed pid))

-- Under a 16-bit prefix, every counter from 1 to `ID_COUNTER_MAX` gives an identifier: the range
-- check against 2^53 - 1 never rejects it. Its high bits are the prefix and its low 37 bits the
-- counter, and `fetch_add` leaves the successor.
pub next_layout :
    (field : String) (seed pid counter : ℕ)
    → 0 < counter
    → counter ≤ id_counter_max_u64
    → let prefix = process_prefix_u16 seed pid in
      (id : ℕ) × (next field js_safe_int_max_u64 prefix counter ≡ (ok id, counter + 1))
      × (id / 2 ^ 37 ≡ prefix)
      × (id % 2 ^ 37 ≡ counter)
unfolding next
next_layout field seed pid counter low high =
    let prefix = process_prefix_u16 seed pid in
    let small = process_prefix_u16-lt seed pid in
    let fields = bit_or-eq-add 37 prefix counter (omega arith) in
    (prefix * 2 ^ 37 + counter, rw fields (ground arith), omega arith, omega arith)

-- Of two identifiers that `next` gave in one process, at counters from 1 on, the one drawn at the
-- larger counter is larger.
next_ascending :
    (field : String) (seed pid earlier later id id' : ℕ)
    → 0 < earlier
    → earlier < later
    → (next field js_safe_int_max_u64 (process_prefix_u16 seed pid) earlier).0 ≡ ok id
    → (next field js_safe_int_max_u64 (process_prefix_u16 seed pid) later).0 ≡ ok id'
    → id < id'
unfolding next
next_ascending field seed pid earlier later id id' low h p q =
    let prefix = process_prefix_u16 seed pid in
    let bound : later ≤ id_counter_max_u64 = ground arith in
    let first = bit_or-eq-add 37 prefix earlier (omega arith) in
    let second = bit_or-eq-add 37 prefix later (omega arith) in ground (arith, first, second)

-- An absolute address never overflows: for any base and relative address that their constructors
-- accept, `checked_add_rel_pc` returns the sum.
pub checked_add_rel_pc_total :
    (b r base rel_pc : ℕ)
    → new_runtime_base b ≡ ok base
    → new_rel_pc r ≡ ok rel_pc
    → checked_add_rel_pc base rel_pc ≡ some (b + r)
unfolding new_runtime_base new_rel_pc checked_add_rel_pc
checked_add_rel_pc_total b r base rel_pc p q = ground arith
