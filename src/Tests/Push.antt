-- ===== src/Tests/Push.antt =====
-- The module table and the push loop at concrete inputs.
use peeps.Prelude.{
  cmp_string_iff, eqb, string_ord, pair_ord, Bool-cases, inl, inr, is_blank, ◌≡◌, refl, none, [],
  ◌∷◌, nat_ord, ok, arith,
}
use peeps.BTreeMap.{get}
use peeps.Trace.{BacktraceRecord, process_prefix_u16}
use peeps.Capture.{CapturedModule}
use peeps.Runtime.Log.{InternalChange}
use peeps.Runtime.Log.Decode.{Json, Codec}
use peeps.Runtime.Db.{RuntimeDb}
use peeps.Runtime.Modules.{
  Registry, remap_and_register_backtrace, manifest_entry, module_identity_for,
}
use peeps.Runtime.Modules.Registered.{IsRegistry, Grows}
use peeps.Runtime.Modules.Remapped.{AreRemapped, remap_and_register_backtrace-AreRemapped}
use peeps.Runtime.Push.{Process, Identity, Session, flush_backtrace_records}
use peeps.Runtime.Push.Covered.{AreStored, flush-AreStored}

abbrev no_modules : Registry
no_modules = record { modules = record { revision = 0; by_key = []; by_id = [] }; counter = 1 }

no_modules-IsRegistry : IsRegistry no_modules
unfolding get
no_modules-IsRegistry = record {
  keyed = λ key id h. absurd (cc);
  drawn = λ id h. absurd (cc);
  numbered = λ id e h. absurd (cc);
  revised = omega arith;
}

abbrev app : CapturedModule
app = record { id = 4; path = "/app"; runtime_base = 4096 }

remap_and_register_backtrace-AreRemapped_example :
    (r : BacktraceRecord) × (h : Registry) × (remap_and_register_backtrace
        (process_prefix_u16 9 7)
        "x86_64"
        (record {
          backtrace = record { id = 11; frames = record { module_id = 4; rel_pc = 16 } ∷ [] };
          modules = app ∷ [];
        })
        no_modules
      ≡ ok (r, h))
    × (r.id ≡ 11)
    × AreRemapped h (app ∷ []) (record { module_id = 4; rel_pc = 16 } ∷ []) r.frames
    × IsRegistry h
    × Grows no_modules h
remap_and_register_backtrace-AreRemapped_example =
    remap_and_register_backtrace-AreRemapped 9 7 "x86_64" 11 (record { module_id = 4; rel_pc = 16 })
      [] (app ∷ []) no_modules no_modules-IsRegistry (omega arith) ((refl, omega arith), tt)

abbrev unwritten : (A : Type 0) → Codec A
unwritten A = record { to_vec = λ a. none; from_slice = λ bytes. none }

abbrev json : Json
json = record { entity = unwritten _; scope = unwritten _; edge = unwritten _; event = unwritten _ }

abbrev db : RuntimeDb
db = record {
  stream_id = "s";
  log = record {
    next_seq_no = 1;
    compacted_before_seq_no = none;
    changes = record { seq_no = 0; change = InternalChange.remove_entity "e" } ∷ [];
  };
  entities = [];
  scopes = [];
  task_scope_ids = [];
  entity_scope_links = [];
  edges = [];
  events = [];
  max_events = 4;
  event_entity_refs = [];
}

abbrev one_module : Registry
one_module = record {
  modules = record {
    revision = 1;
    by_key = ((4096, "/app"), 5) ∷ [];
    by_id = (5, manifest_entry 0 "x86_64" (4096, "/app") 5) ∷ [];
  };
  counter = 6;
}

abbrev process : Process
process = record {
  registry = one_module;
  records = (11, record { id = 11; frames = record { module_id = 5; rel_pc = 16 } ∷ [] }) ∷ [];
}

abbrev me : Identity
me = record { process_id = "p"; process_name = "app"; pid = 7; args = []; env = [] }

abbrev session : Session
session = record { last_sent_manifest_revision = 0; last_sent_backtrace_id = none; cursor = 0 }

one_module-IsRegistry : IsRegistry one_module
unfolding get module_identity_for
one_module-IsRegistry = record {
  keyed = λ key id h. (
    manifest_entry 0 "x86_64" (4096, "/app") 5,
    ground arith,
    ground (arith, cmp_string_iff key.1 "/app"),
  );
  drawn = λ id h. ground arith;
  numbered = λ id e h. ground arith;
  revised = omega arith;
}

-- The table after another thread's capture, between the two locks of the flush.
abbrev two_modules : Registry
two_modules = record {
  modules = record {
    revision = 2;
    by_key = ((4096, "/app"), 5) ∷ ((8192, "/lib"), 6) ∷ [];
    by_id =
        (5, manifest_entry 0 "x86_64" (4096, "/app") 5)
        ∷ (6, manifest_entry 0 "x86_64" (8192, "/lib") 6)
        ∷ [];
  };
  counter = 7;
}

two_modules-IsRegistry : IsRegistry two_modules
unfolding get module_identity_for
two_modules-IsRegistry = record {
  keyed = λ key id h. elim (Bool-cases (eqb key (4096, "/app"))) [
    | inl first ↦ (
      manifest_entry 0 "x86_64" (4096, "/app") 5,
      ground arith,
      ground (arith, cmp_string_iff key.1 "/app"),
    )
    | inr second ↦ (
      manifest_entry 0 "x86_64" (8192, "/lib") 6,
      ground arith,
      ground (arith, cmp_string_iff key.1 "/lib"),
    )
  ];
  drawn = λ id h. ground arith;
  numbered = λ id e h. ground arith;
  revised = omega arith;
}

modules-Grows : Grows one_module two_modules
unfolding get
modules-Grows = record {
  kept = λ id e h. ground arith;
  later = omega arith;
  same = λ h. absurd (omega (arith, h));
}

flush-AreStored_example :
    AreStored [] (flush_backtrace_records me two_modules process.records session).1
unfolding get module_identity_for is_blank peeps.Prelude.is_absolute peeps.Prelude.hexadecimal
flush-AreStored_example =
    flush-AreStored me process (record process { registry = two_modules }) session []
      ((refl, tt), tt) modules-Grows two_modules-IsRegistry
      ((refl, refl, omega arith, refl, refl), ((refl, refl, omega arith, refl, refl), tt)) refl refl
      (λ h. absurd (omega arith))
