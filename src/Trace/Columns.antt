-- ===== src/Trace/Columns.antt =====
-- The SQLite columns of identifiers and addresses.
use peeps.Prelude.{ℕ, ◌≡◌, String, arith, ok, ◌>>=◌, ℤ, pos, negsuc}
use peeps.Trace.{
  js_safe_int_max_u64, from_raw, new_runtime_base, new_rel_pc, to_sql, id_column_result,
  runtime_base_column_result, rel_pc_column_result,
}

-- Every identifier that a constructor accepts is stored in a column and read back unchanged.
pub column_result-to_sql :
    (field : String) (v id : ℕ)
    → from_raw field js_safe_int_max_u64 v ≡ ok id
    → (to_sql id >>= id_column_result field js_safe_int_max_u64) ≡ ok id
unfolding to_sql id_column_result from_raw
column_result-to_sql field v id h = ground arith

-- A column that reads as an identifier holds exactly what storing that identifier would write.
to_sql-column_result :
    (field : String) (z : ℤ) (id : ℕ)
    → id_column_result field js_safe_int_max_u64 z ≡ ok id
    → to_sql id ≡ ok z
unfolding to_sql id_column_result from_raw
to_sql-column_result field (pos n) id h = ground arith
to_sql-column_result field (negsuc n) id h = cc

-- Every base and every relative address that its constructor accepts is stored in a column and read
-- back unchanged.
addresses_column_result :
    (b base r rel_pc : ℕ)
    → new_runtime_base b ≡ ok base
    → new_rel_pc r ≡ ok rel_pc
    → ((to_sql base >>= runtime_base_column_result) ≡ ok base)
      × ((to_sql rel_pc >>= rel_pc_column_result) ≡ ok rel_pc)
unfolding to_sql runtime_base_column_result rel_pc_column_result new_runtime_base new_rel_pc
addresses_column_result b base r rel_pc p q = (ground arith, ground arith)
