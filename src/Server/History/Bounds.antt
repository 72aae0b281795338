-- ===== src/Server/History/Bounds.antt =====
-- The history of snapshots stays bounded, and its two halves agree.
use peeps.Prelude.{
  ℕ, ℤ, ◌≤◌, ◌<◌, ◌≡◌, refl, false, some, List, [], ◌∷◌, ◌++◌, String, int_ord, eqb, eqb_iff, ltb,
  ◌||◌, length, arith, Bool-cases, inl, inr, ltb→le,
}
use peeps.BTreeMap.{BTreeMap, get, insert, remove, contains_key}
use peeps.BTreeMap.Laws.{get-insert, get-remove}
use peeps.Server.{ServerState}
use peeps.Server.History.{snapshot_history_limit, contains_id, drop_oldest, store_snapshot}

abbrev pub Distinct : List ℤ → Type 0
Distinct [] = Unit
Distinct (id ∷ ids) = (contains_id id ids ≡ false) × Distinct ids

-- A snapshot is in the queue exactly when it is in the map.
abbrev pub Agree : List ℤ → BTreeMap ℤ String → Type 0
Agree ids json = (q : ℤ) → contains_id q ids ≡ contains_key q json

-- At most `limit` snapshots, each once, and the map holds exactly them.
abbrev pub IsHistory : ℕ → List ℤ → BTreeMap ℤ String → Type 0
IsHistory limit ids json = (length ids ≤ limit) × Distinct ids × Agree ids json

contains_id-append :
    (q id : ℤ) (ids : List ℤ) → contains_id q (ids ++ id ∷ []) ≡ (contains_id q ids || eqb q id)
unfolding contains_id
contains_id-append q id [] = ground arith
contains_id-append q id (i ∷ ids) = ground (arith, contains_id-append q id ids)

append-Distinct :
    (id : ℤ) (ids : List ℤ) → contains_id id ids ≡ false → Distinct ids → Distinct (ids ++ id ∷ [])
unfolding contains_id
append-Distinct id [] new h = (refl, tt)
append-Distinct id (i ∷ ids) new h = (
  ground (arith, new, h.0, contains_id-append i id ids, eqb_iff i id, eqb_iff id i),
  append-Distinct id ids (ground arith) h.1,
)

drop_oldest-IsHistory :
    (limit : ℕ) (ids : List ℤ) (json : BTreeMap ℤ String)
    → Distinct ids
    → Agree ids json
    → IsHistory limit (drop_oldest limit ids json).0 (drop_oldest limit ids json).1
unfolding drop_oldest contains_id
drop_oldest-IsHistory limit [] json distinct agree = (omega arith, tt, agree)
drop_oldest-IsHistory limit (oldest ∷ ids) json distinct agree =
    elim (Bool-cases (ltb limit (length (oldest ∷ ids)))) [
      | inl long ↦
          rw (long, drop_oldest)
            (drop_oldest-IsHistory limit ids (remove oldest json) distinct.1 (λ q.
              ground (arith, agree q, distinct.0, get-remove q oldest json, eqb_iff q oldest)))
      | inr short ↦
          rw (short, drop_oldest) (ltb→le limit (length (oldest ∷ ids)) short, distinct, agree)
    ]

drop_oldest-newest :
    (limit : ℕ) (id : ℤ) (ids : List ℤ) (json : BTreeMap ℤ String) (text : String)
    → 0 < limit
    → contains_id id ids ≡ false
    → get id json ≡ some text
    → get id (drop_oldest limit (ids ++ id ∷ []) json).1 ≡ some text
unfolding drop_oldest contains_id
drop_oldest-newest limit id [] json text some_room new there = ground arith
drop_oldest-newest limit id (i ∷ ids) json text some_room new there =
    elim (Bool-cases (ltb limit (length (i ∷ (ids ++ id ∷ []))))) [
      | inl long ↦
          rw (long, drop_oldest)
            (drop_oldest-newest limit id ids (remove i json) text some_room (ground arith)
              (ground (arith, get-remove id i json)))
      | inr short ↦ rw (short, drop_oldest) there
    ]

-- A queue that is short enough is left alone.
drop_oldest-short :
    (limit : ℕ) (ids : List ℤ) (json : BTreeMap ℤ String)
    → length ids ≤ limit
    → drop_oldest limit ids json ≡ (ids, json)
unfolding drop_oldest
drop_oldest-short limit [] json h = refl
drop_oldest-short limit (i ∷ ids) json h = ground arith

-- Storing a snapshot keeps the history: at most 64 snapshots, each once, and a text for exactly
-- those. The stored snapshot is in it with its text, which is also the latest.
pub store_snapshot-IsHistory :
    {R : Type 0} (id : ℤ) (json : String) (s : ServerState R)
    → IsHistory snapshot_history_limit s.snapshot_history_ids s.snapshot_history_json
    → let t = store_snapshot id json s in
      IsHistory snapshot_history_limit t.snapshot_history_ids t.snapshot_history_json
      × (get id t.snapshot_history_json ≡ some json)
      × (t.last_snapshot_json ≡ some json)
unfolding store_snapshot
store_snapshot-IsHistory id json s (small, distinct, agree) =
    let ids = s.snapshot_history_ids in
    let m = insert id json s.snapshot_history_json in
    elim (Bool-cases (contains_id id ids)) [
      | inl old ↦
          rw (old, store_snapshot, drop_oldest-short snapshot_history_limit ids m small)
            (
              (
                small,
                distinct,
                λ q. ground (
                  arith,
                  agree q,
                  old,
                  get-insert q id json s.snapshot_history_json,
                  eqb_iff q id,
                ),
              ),
              ground (arith, get-insert id id json s.snapshot_history_json, eqb_iff id id),
              refl,
            )
      | inr new ↦
          rw (new, store_snapshot)
            (
              drop_oldest-IsHistory snapshot_history_limit (ids ++ id ∷ []) m
                  (append-Distinct id ids new distinct)
                  (λ q. ground (
                    arith,
                    agree q,
                    contains_id-append q id ids,
                    get-insert q id json s.snapshot_history_json,
                  )),
              drop_oldest-newest snapshot_history_limit id ids m json (omega arith) new
                  (ground (arith, get-insert id id json s.snapshot_history_json, eqb_iff id id)),
              refl,
            )
    ]
