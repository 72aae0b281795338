-- ===== src/Runtime/Replay/Updates.antt =====
-- crates/moire-runtime/src/db.rs: renaming an entity and changing its body, against the change stream.
use peeps.Prelude.{
  ℕ, ◌≡◌, refl, ◌∙◌, inl, inr, true, false, some, List, String, string_ord, pair_ord, Bool-cases,
  Option-cases, Total, ok, is_some, eqb, ◌==◌,
}
use peeps.BTreeMap.{BTreeMap, get, insert}
use peeps.Types.{EntityId, Entity}
use peeps.Types.Bodies.{EntityBody}
use peeps.Runtime.Log.{InternalChange}
use peeps.Runtime.Log.Decode.{Json, to_change}
use peeps.Runtime.Db.{RuntimeDb, push_change}
use peeps.Runtime.Db.Entities.{
  Fingerprint, body_fingerprint, rename_entity_and_maybe_upsert,
  mutate_entity_body_and_maybe_upsert,
}
use peeps.Runtime.Replay.{Refines, Serializes, Refines-refl, Refines-push}

-- Every entity stands under its own identifier.
unfoldable pub IsKeyed : BTreeMap EntityId Entity → Type 0
IsKeyed es = (id : EntityId) (e : Entity) → get id es ≡ some e → e.id ≡ id

-- Two bodies that can be written, with different fingerprints.
abbrev pub Changes : Fingerprint → EntityBody → EntityBody → Type 0
Changes fingerprint before after =
    (b : List ℕ) × (a : List ℕ) × (fingerprint.to_vec before ≡ some b)
    × (fingerprint.to_vec after ≡ some a)
    × ((fingerprint.finish b == fingerprint.finish a) ≡ false)

body_fingerprint-ok :
    (fingerprint : Fingerprint) (body : EntityBody) (bytes : List ℕ)
    → fingerprint.to_vec body ≡ some bytes
    → body_fingerprint fingerprint body ≡ ok (fingerprint.finish bytes)
unfolding body_fingerprint
body_fingerprint-ok fingerprint body bytes e = rw (e, body_fingerprint) refl

module _ (json : Json) (db : RuntimeDb) (id : EntityId) (keyed : IsKeyed db.entities) where
  -- An entity written back under its identifier, and announced.
  pub write-Refines :
      (old new : Entity) (text : List ℕ)
      → get id db.entities ≡ some old
      → new.id ≡ old.id
      → json.entity.from_slice text ≡ some new
      → Refines json db (
          push_change
            (record db { entities = insert id new db.entities })
            (InternalChange.upsert_entity id text))
  unfolding to_change IsKeyed
  write-Refines old new text found same read =
      Refines-push db _ (InternalChange.upsert_entity id text) refl
        (rw (read, same ∙ keyed id old found) refl)

  -- A rename pushes the renamed entity, or changes nothing: the replay of what it pushed gives the
  -- graph that it leaves. Every entity stands under its own identifier, and the serializer writes
  -- the renamed entity and reads it back.
  pub rename_entity_and_maybe_upsert-Refines :
      (name : String)
      → ((e : Entity)
          → get id db.entities ≡ some e
          → Serializes json.entity (record e { name = name }))
      → Refines json db (rename_entity_and_maybe_upsert json db id name).0
  unfolding rename_entity_and_maybe_upsert
  rename_entity_and_maybe_upsert-Refines name ser = elim (Option-cases (get id db.entities)) [
    | inl gone ↦ rw (gone, rename_entity_and_maybe_upsert) (Refines-refl db)
    | inr (e, found) ↦ elim (Bool-cases (is_some e.removed_at)) [
      | inl dead ↦ rw (found, dead, rename_entity_and_maybe_upsert) (Refines-refl db)
      | inr alive ↦ elim (Bool-cases (eqb e.name name)) [
        | inl same ↦ rw (found, alive, same, rename_entity_and_maybe_upsert) (Refines-refl db)
        | inr other ↦
            let (text, written, read) = ser e found in
            rw (found, alive, other, written, rename_entity_and_maybe_upsert)
              (write-Refines e (record e { name = name }) text found refl read)
      ]
    ]
  ]

  -- `mutate_entity_body_and_maybe_upsert` returns, and the replay of what it pushed gives the graph
  -- that it leaves, when the body of a known entity can be written before and after the mutation,
  -- with different fingerprints. Every entity stands under its own identifier, and the serializer
  -- writes the changed entity and reads it back.
  pub mutate_entity_body_and_maybe_upsert-Refines :
      (fingerprint : Fingerprint) (mutate : EntityBody → EntityBody)
      → ((e : Entity) → get id db.entities ≡ some e → Changes fingerprint e.body (mutate e.body))
      → ((e : Entity)
          → get id db.entities ≡ some e
          → Serializes json.entity (record e { body = mutate e.body }))
      → Total
          (λ r. Refines json db r.0)
          (mutate_entity_body_and_maybe_upsert fingerprint json db id mutate)
  unfolding mutate_entity_body_and_maybe_upsert
  mutate_entity_body_and_maybe_upsert-Refines fingerprint mutate changes ser =
      elim (Option-cases (get id db.entities)) [
        | inl gone ↦
            ((db, false), rw (gone, mutate_entity_body_and_maybe_upsert) refl, Refines-refl db)
        | inr (e, found) ↦ elim (Bool-cases (is_some e.removed_at)) [
          | inl dead ↦ (
            (db, false),
            rw (found, dead, mutate_entity_body_and_maybe_upsert) refl,
            Refines-refl db,
          )
          | inr alive ↦
              let (text, written, read) = ser e found in
              let (before, after, b, a, other) = changes e found in
              let before_ok = body_fingerprint-ok fingerprint e.body before b in
              let after_ok = body_fingerprint-ok fingerprint (mutate e.body) after a in
              let mutated = record e { body = mutate e.body } in
              (
                (
                  push_change (record db { entities = insert id mutated db.entities })
                      (InternalChange.upsert_entity id text),
                  true,
                ),
                rw
                    (
                      found, alive, before_ok, after_ok, other, written,
                      mutate_entity_body_and_maybe_upsert,
                    )
                    refl,
                write-Refines e mutated text found refl read,
              )
        ]
      ]
