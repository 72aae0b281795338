-- ===== src/Server/History.antt =====
-- crates/moire-web/src/app/mod.rs `remember_snapshot`: the latest snapshot and the last ones, as JSON.
pub mod Bounds
use peeps.Prelude.{
  ℕ, ℤ, Bool, false, Option, none, some, List, [], ◌∷◌, ◌++◌, String, int_ord, eqb, ltb, ◌||◌,
  length, if◌then◌else◌,
}
use peeps.BTreeMap.{BTreeMap, insert, remove}
use peeps.Types.Snapshot.{SnapshotCutResponse}
use peeps.Server.{ServerState}

abbrev pub snapshot_history_limit : ℕ
snapshot_history_limit = 64

-- `VecDeque::contains`.
unfoldable pub contains_id : ℤ → List ℤ → Bool
contains_id id [] = false
contains_id id (j ∷ ids) = eqb id j || contains_id id ids

-- The loop that drops the oldest entries.
unfoldable pub drop_oldest : ℕ → List ℤ → BTreeMap ℤ String → List ℤ × BTreeMap ℤ String
drop_oldest limit [] json = ([], json)
drop_oldest limit (oldest ∷ ids) json =
    let rest = drop_oldest limit ids (remove oldest json) in
    if ltb limit (length (oldest ∷ ids)) then rest else (oldest ∷ ids, json)

module _ {R : Type 0} where
  -- The part under the lock.
  unfoldable pub store_snapshot : ℤ → String → ServerState R → ServerState R
  unfolding contains_id drop_oldest
  store_snapshot id json s =
      let ids =
        if contains_id id s.snapshot_history_ids
        then s.snapshot_history_ids
        else s.snapshot_history_ids ++ id ∷ [] in
      let (kept, texts) =
        drop_oldest snapshot_history_limit ids (insert id json s.snapshot_history_json) in
      record s {
        last_snapshot_json = some json;
        snapshot_history_json = texts;
        snapshot_history_ids = kept;
      }

  -- `to_string` is the serializer, `none` its error.
  unfoldable pub remember_snapshot :
      (SnapshotCutResponse → Option String) → SnapshotCutResponse → ServerState R → ServerState R
  unfolding store_snapshot
  remember_snapshot to_string snapshot s = elim (to_string snapshot) [
    | none ↦ s
    | some json ↦ store_snapshot snapshot.snapshot_id json s
  ]
