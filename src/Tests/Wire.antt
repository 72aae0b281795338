-- ===== src/Tests/Wire.antt =====
-- Frames, identifiers and addresses at concrete inputs.
use peeps.Prelude.{◌≡◌, refl, ◌/◌, ◌%◌, ◌^◌, ℕ, [], ◌∷◌, ok, some, arith, ◌>>=◌}
use peeps.Wire.Frame.{encode_frame, decode_frame}
use peeps.Wire.Frame.RoundTrip.{decode_frame-encode_frame, encode_frame-decode_frame}
use peeps.Trace.{
  js_safe_int_max_u64, process_prefix_u16, from_raw, next, new_runtime_base, new_rel_pc,
  checked_add_rel_pc, to_sql, id_column_result,
}
use peeps.Trace.Layout.{next_layout, checked_add_rel_pc_total}
use peeps.Trace.Columns.{column_result-to_sql}
use peeps.Types.OpaqueId.{next_opaque_id-injective}

decode_frame-encode_frame_example : decode_frame (0 ∷ 0 ∷ 0 ∷ 2 ∷ 7 ∷ 9 ∷ []) 1024 ≡ ok (7 ∷ 9 ∷ [])
unfolding encode_frame
decode_frame-encode_frame_example =
    decode_frame-encode_frame (7 ∷ 9 ∷ []) (0 ∷ 0 ∷ 0 ∷ 2 ∷ 7 ∷ 9 ∷ []) 1024 (ground arith)

encode_frame-decode_frame_example : encode_frame (7 ∷ 9 ∷ []) 1024 ≡ ok (0 ∷ 0 ∷ 0 ∷ 2 ∷ 7 ∷ 9 ∷ [])
unfolding decode_frame
encode_frame-decode_frame_example =
    encode_frame-decode_frame (0 ∷ 0 ∷ 0 ∷ 2 ∷ 7 ∷ 9 ∷ []) (7 ∷ 9 ∷ []) 1024
      (omega arith, (omega arith, (omega arith, (omega arith, (omega arith, (omega arith, tt))))))
      (ground arith)

next_layout_example :
    (id : ℕ) × (next "backtrace_id" js_safe_int_max_u64 (process_prefix_u16 123456789 4242) 7
      ≡ (ok id, 8))
    × (id / 2 ^ 37 ≡ process_prefix_u16 123456789 4242)
    × (id % 2 ^ 37 ≡ 7)
next_layout_example = next_layout "backtrace_id" 123456789 4242 7 (omega arith) (omega arith)

checked_add_rel_pc_total_example : checked_add_rel_pc 0x1000 0x20 ≡ some 0x1020
unfolding new_runtime_base new_rel_pc
checked_add_rel_pc_total_example = checked_add_rel_pc_total 0x1000 0x20 0x1000 0x20 refl refl

column_result-to_sql_example :
    (to_sql 77 >>= id_column_result "module_id" js_safe_int_max_u64) ≡ ok 77
unfolding from_raw
column_result-to_sql_example = column_result-to_sql "module_id" 77 77 refl

next_opaque_id-injective_example : ◌≡◌ {A = ℕ} 5 5
next_opaque_id-injective_example =
    next_opaque_id-injective 1 5 5 (omega arith) (omega arith) (omega arith) refl
