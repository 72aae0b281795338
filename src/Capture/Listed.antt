-- ===== src/Capture/Listed.antt =====
-- crates/moire-trace-capture/src/lib.rs: lists of modules and frames, and the steps of a capture.
use peeps.Prelude.{
  ℕ, zero, suc, ◌+◌, ◌-◌, ◌≡◌, refl, ap, false, some, List, [], ◌∷◌, ◌++◌, String, string_ord,
  nat_ord, pair_ord, ltb, length, get_elem?, arith, ok,
}
use peeps.BTreeMap.{insert}
use peeps.Trace.{
  ModuleId, RuntimeBase, FrameKey, next, js_safe_int_max_u64, new_module_path, new_rel_pc,
}
use peeps.Capture.{CapturedModule, RawModuleInfo, Captured}

-- The module with this identifier, base and path is in the list.
abbrev pub Registered : List CapturedModule → RuntimeBase → String → ModuleId → Type 0
Registered ms base path id =
    (i : ℕ) × (get_elem? ms i ≡ some (record { id = id; path = path; runtime_base = base }))

pub append_nil : {A : Type 0} (xs : List A) → xs ++ [] ≡ xs
append_nil [] = refl
append_nil (x ∷ xs) = ap (◌∷◌ x) (append_nil xs)

pub append_cons :
    {A : Type 0} (xs : List A) (a : A) (ys : List A) → (xs ++ a ∷ []) ++ ys ≡ xs ++ a ∷ ys
append_cons [] a ys = refl
append_cons (x ∷ xs) a ys = ap (◌∷◌ x) (append_cons xs a ys)

-- The relation holds between two lists, element by element.
abbrev pub Pairs : (ℕ → FrameKey → Type 0) → List ℕ → List FrameKey → Type 0
Pairs P [] [] = Unit
Pairs P [] (f ∷ fs) = ◌≡◌ {A = ℕ} 0 1
Pairs P (ip ∷ ips) [] = ◌≡◌ {A = ℕ} 0 1
Pairs P (ip ∷ ips) (f ∷ fs) = P ip f × Pairs P ips fs

pub get_elem?-left :
    {A : Type 0} (xs ys : List A) (i : ℕ) (a : A)
    → get_elem? xs i ≡ some a
    → get_elem? (xs ++ ys) i ≡ some a
get_elem?-left [] ys i a h = absurd (cc)
get_elem?-left (x ∷ xs) ys zero a h = h
get_elem?-left (x ∷ xs) ys (suc i) a h = get_elem?-left xs ys i a h

pub get_elem?-last :
    {A : Type 0} (xs : List A) (a : A) → get_elem? (xs ++ a ∷ []) (length xs) ≡ some a
get_elem?-last [] a = refl
get_elem?-last (x ∷ xs) a = get_elem?-last xs a

pub Pairs-mono :
    (P Q : ℕ → FrameKey → Type 0) (ips : List ℕ) (fs : List FrameKey)
    → ((ip : ℕ) (f : FrameKey) → P ip f → Q ip f)
    → Pairs P ips fs
    → Pairs Q ips fs
Pairs-mono P Q [] [] h ps = tt
Pairs-mono P Q [] (f ∷ fs) h ps = ps
Pairs-mono P Q (ip ∷ ips) [] h ps = ps
Pairs-mono P Q (ip ∷ ips) (f ∷ fs) h ps = (h ip f ps.0, Pairs-mono P Q ips fs h ps.1)

pub Pairs-snoc :
    (P : ℕ → FrameKey → Type 0) (ips : List ℕ) (fs : List FrameKey) (ip : ℕ) (f : FrameKey)
    → Pairs P ips fs
    → P ip f
    → Pairs P (ips ++ ip ∷ []) (fs ++ f ∷ [])
Pairs-snoc P [] [] ip f ps p = (p, tt)
Pairs-snoc P [] (g ∷ fs) ip f ps p = absurd (omega (arith, ps))
Pairs-snoc P (j ∷ ips) [] ip f ps p = absurd (omega (arith, ps))
Pairs-snoc P (j ∷ ips) (g ∷ fs) ip f ps p = (ps.0, Pairs-snoc P ips fs ip f ps.1 p)

-- The state after a new module was listed.
abbrev pub added : ℕ → Captured → RawModuleInfo → ModuleId → String → Captured
added prefix c info id path = record c {
  counter = (next "module_id" js_safe_int_max_u64 prefix c.counter).1;
  modules_by_key = insert (info.runtime_base, info.path) id c.modules_by_key;
  modules = c.modules ++ record { id = id; path = path; runtime_base = info.runtime_base } ∷ [];
}

pub place_sum :
    (ip base rel_pc : ℕ)
    → ltb ip base ≡ false
    → new_rel_pc (ip - base) ≡ ok rel_pc
    → base + rel_pc ≡ ip
unfolding new_rel_pc
place_sum ip base rel_pc above h = ground arith

pub same_path : (path q : String) → new_module_path path ≡ ok q → q ≡ path
unfolding new_module_path
same_path path q h = ground arith
