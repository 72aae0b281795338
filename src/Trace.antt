-- ===== src/Trace.antt =====
-- crates/moire-trace-types/src/lib.rs: identifiers, addresses and backtraces with their checks. The
-- newtypes over `u64` and `String` are synonyms; each value comes from a checked constructor.
pub mod Layout
pub mod Columns
use peeps.Prelude.{
  ℕ, ◌+◌, ◌*◌, ◌^◌, ◌-◌, ◌%◌, ◌≡◌, Bool, true, false, Option, none, some, List, [], ◌∷◌, String,
  ltb, leb, ◌==◌, if◌then◌else◌, Result, ok, err, ◌>>=◌, map_err, bit_or, bit_and, bit_xor, u64_max,
  i64_max, ℤ, pos, negsuc, eqb, string_ord,
}

pub data InvariantError : Type 0 where
  zero_id : String → InvariantError
  id_out_of_range : String → ℕ → ℕ → InvariantError
  empty_field : String → InvariantError
  empty_backtrace_frames : InvariantError

abbrev pub id_prefix_bits : ℕ
id_prefix_bits = 16

abbrev pub id_counter_bits : ℕ
id_counter_bits = 37

abbrev pub id_counter_max_u64 : ℕ
id_counter_max_u64 = 2 ^ id_counter_bits - 1

abbrev pub js_safe_int_max_u64 : ℕ
js_safe_int_max_u64 = 2 ^ 53 - 1

-- The low 16 bits of `seed ^ pid`, the seed being the nanoseconds of the clock, or 0.
unfoldable pub process_prefix_u16 : ℕ → ℕ → ℕ
process_prefix_u16 seed pid = bit_and (bit_xor seed pid) 0xFFFF

-- `define_u64_id!`: `field` names the identifier in errors, `max` bounds it.
module _ (field : String) (max : ℕ) where
  unfoldable pub from_raw : ℕ → Result InvariantError ℕ
  from_raw value =
      if value == 0
      then err (zero_id field)
      else if ltb max value
      then err (id_out_of_range field max value)
      else ok value

  -- The result, beside the counter that `fetch_add` leaves.
  unfoldable pub next : ℕ → ℕ → Result InvariantError ℕ × ℕ
  unfolding from_raw
  next prefix counter = (
    if ltb id_counter_max_u64 counter
        then err (id_out_of_range field id_counter_max_u64 counter)
        else from_raw (bit_or (prefix * 2 ^ id_counter_bits) counter),
    (counter + 1) % 2 ^ 64,
  )

abbrev pub ModuleId : Type 0
ModuleId = ℕ

abbrev pub BacktraceId : Type 0
BacktraceId = ℕ

abbrev pub FrameId : Type 0
FrameId = ℕ

abbrev pub RuntimeBase : Type 0
RuntimeBase = ℕ

abbrev pub RelPc : Type 0
RelPc = ℕ

abbrev pub ModulePath : Type 0
ModulePath = String

-- `RuntimeBase::new`.
unfoldable pub new_runtime_base : ℕ → Result InvariantError RuntimeBase
new_runtime_base value =
    if value == 0
    then err (zero_id "runtime_base")
    else if ltb js_safe_int_max_u64 value
    then err (id_out_of_range "runtime_base" js_safe_int_max_u64 value)
    else ok value

-- `u64::checked_add` on the two addresses.
unfoldable pub checked_add_rel_pc : RuntimeBase → RelPc → Option ℕ
checked_add_rel_pc base rel_pc = if ltb u64_max (base + rel_pc) then none else some (base + rel_pc)

-- `RelPc::new`.
unfoldable pub new_rel_pc : ℕ → Result InvariantError RelPc
new_rel_pc value =
    if ltb js_safe_int_max_u64 value
    then err (id_out_of_range "rel_pc" js_safe_int_max_u64 value)
    else ok value

-- The text newtypes `ModulePath`, `BuildId`, `DebugId`, `ModuleArch` differ in the field's name.
unfoldable pub new_module_path : String → Result InvariantError ModulePath
new_module_path value = if eqb value "" then err (empty_field "module_path") else ok value

pub record FrameKey : Type 0 where
  pub module_id : ModuleId
  pub rel_pc : RelPc

pub record BacktraceRecord : Type 0 where
  pub id : BacktraceId
  pub frames : List FrameKey

-- `BacktraceRecord::new`.
unfoldable pub new_backtrace_record :
    BacktraceId → List FrameKey → Result InvariantError BacktraceRecord
new_backtrace_record id [] = err empty_backtrace_frames
new_backtrace_record id (f ∷ fs) = ok (record { id = id; frames = f ∷ fs })

-- What the `rusqlite` conversions report.
pub data SqlError : Type 0 where
  to_sql_conversion_failure : SqlError
  negative_i64 : SqlError
  invalid_data : InvariantError → SqlError

-- `i64::try_from(u64)` of every `ToSql`.
unfoldable pub to_sql : ℕ → Result SqlError ℤ
to_sql value = if ltb i64_max value then err to_sql_conversion_failure else ok (pos value)

-- `u64::try_from(i64)` of every `FromSql`.
unfoldable pub u64_try_from : ℤ → Result SqlError ℕ
u64_try_from (pos n) = ok n
u64_try_from (negsuc n) = err negative_i64

-- `FromSql` of an identifier: the sign, then the checks of `from_raw`.
unfoldable pub id_column_result : String → ℕ → ℤ → Result SqlError ℕ
unfolding u64_try_from
id_column_result field max value = do
  raw ← u64_try_from value
  map_err invalid_data (from_raw field max raw)

unfoldable pub runtime_base_column_result : ℤ → Result SqlError RuntimeBase
unfolding u64_try_from
runtime_base_column_result value = do
  raw ← u64_try_from value
  map_err invalid_data (new_runtime_base raw)

unfoldable pub rel_pc_column_result : ℤ → Result SqlError RelPc
unfolding u64_try_from
rel_pc_column_result value = do raw ← u64_try_from value; map_err invalid_data (new_rel_pc raw)
