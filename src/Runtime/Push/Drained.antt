-- ===== src/Runtime/Push/Drained.antt =====
-- The ticks of a session deliver the log.
use peeps.Runtime.Modules.{Registry, Records}
use peeps.Prelude.{ℕ, zero, suc, List, [], ◌∷◌, ◌++◌}
use peeps.Types.Change.{StampedChange}
use peeps.Wire.Messages.{
  ClientMessage, handshake, backtrace_record, delta_batch, cut_ack, snapshot_reply, error,
}
use peeps.Runtime.Log.Decode.{Json}
use peeps.Runtime.Db.{RuntimeDb}
use peeps.Runtime.Push.{Identity, Session, tick}

-- The changes that messages carry.
abbrev pub batch_changes : List ClientMessage → List StampedChange
batch_changes [] = []
batch_changes (delta_batch batch ∷ messages) = batch.changes ++ batch_changes messages
batch_changes (handshake h ∷ messages) = batch_changes messages
batch_changes (backtrace_record r ∷ messages) = batch_changes messages
batch_changes (snapshot_reply r ∷ messages) = batch_changes messages
batch_changes (cut_ack a ∷ messages) = batch_changes messages
batch_changes (error e ∷ messages) = batch_changes messages

module _ (me : Identity) (registry : Registry) (recorded : Records) where
  module _ (json : Json) (db : RuntimeDb) where
    -- Several ticks, with nothing between them.
    abbrev pub ticks : ℕ → Session → Session × List ClientMessage
    ticks zero s = (s, [])
    ticks (suc k) s =
        let (t, first) = tick me registry recorded json db s in
        let (u, rest) = ticks k t in (u, first ++ rest)
