-- ===== src/Server/Cuts.antt =====
-- crates/moire-web/src/api/connections.rs: the requests about connections and cuts.
use Prim.Native.Nat.{Ordering, compare}
use Prim.Native.String.{compare as compare_string}
use mathlib.Core.Option
use peeps.Prelude.{
  ℤ, Option, none, some, List, [], ◌∷◌, map, length, nat_ord, string_ord, Result, ok, err, ◌>>=◌,
  then_cmp, sort_by,
}
use peeps.BTreeMap.{BTreeMap, get, insert, keys}
use peeps.BTreeMap.Values.{map_values}
use peeps.Types.{ProcessId}
use peeps.Types.Change.{CutId}
use peeps.Types.Snapshot.{
  ConnectionId, ConnectedProcessInfo, ConnectionsResponse, TriggerCutResponse, CutStatusResponse,
}
use peeps.Wire.Frame.{Bytes, WireError}
use peeps.Wire.Messages.{ServerMessage, cut_request}
use peeps.Server.{
  ServerState, ConnectedProcess, CutState, Panic, next_ordinal, to_cut_id, ConnectionSet,
}

-- The connections of a map.
abbrev pub connection_ids : {V : Type 0} → BTreeMap ConnectionId V → ConnectionSet
connection_ids = map_values (λ _. tt)

abbrev pub info_of : ConnectionId × ConnectedProcess → ProcessId → ConnectedProcessInfo
info_of (conn_id, conn) process_id = record {
  conn_id = conn_id;
  process_id = process_id;
  process_name = conn.process_name;
  pid = conn.pid;
}

abbrev pub cmp_info : ConnectedProcessInfo → ConnectedProcessInfo → Ordering
cmp_info a b =
    then_cmp (compare_string a.process_name b.process_name)
      (then_cmp (compare a.pid b.pid) (compare a.conn_id b.conn_id))

abbrev pub cons_info :
    Option ConnectedProcessInfo → List ConnectedProcessInfo → List ConnectedProcessInfo
cons_info none rest = rest
cons_info (some info) rest = info ∷ rest

unfoldable pub connected_infos : BTreeMap ConnectionId ConnectedProcess → List ConnectedProcessInfo
connected_infos [] = []
connected_infos (entry ∷ entries) =
    cons_info (Option.map (info_of entry) entry.1.process_id) (connected_infos entries)

-- What a request to trigger a cut answers, and what it sends to whom.
pub data CutOutcome : Type 0 where
  internal_server_error : WireError → CutOutcome
  requested : TriggerCutResponse → List (ConnectionId × Bytes) → CutOutcome

module _ {R : Type 0} where
  unfoldable pub api_connections : ServerState R → ConnectionsResponse
  unfolding connected_infos
  api_connections s =
      let processes = sort_by cmp_info (connected_infos s.connections) in
      record { connected_processes = length processes; processes = processes }

  -- The part of `api_trigger_cut` under the lock: the new cut's id.
  unfoldable pub open_cut : ℤ → ServerState R → Result Panic (CutId × ServerState R)
  open_cut now_ns s = do
    next ← next_ordinal s.next_cut_id
    let cut_id = to_cut_id s.next_cut_id
    ok (
      cut_id,
      record s {
        next_cut_id = next;
        cuts =
            insert cut_id
              (record {
                requested_at_ns = now_ns;
                pending_conn_ids = connection_ids s.connections;
                acks = [];
              })
              s.cuts;
      },
    )

  -- `encode` is `encode_server_message_default`.
  unfoldable pub api_trigger_cut :
      (ServerMessage → Result WireError Bytes)
      → ℤ
      → ServerState R
      → Result Panic (ServerState R × CutOutcome)
  unfolding open_cut
  api_trigger_cut encode now_ns s = do
    opened ← open_cut now_ns s
    let outbound = keys s.connections
    ok (
      opened.1,
      elim (encode (cut_request (record { cut_id = opened.0 }))) [
        | err e ↦ internal_server_error e
        | ok payload ↦
            requested
              (record {
                cut_id = opened.0;
                requested_at_ns = now_ns;
                requested_connections = length outbound;
              })
              (map (λ conn_id. (conn_id, payload)) outbound)
      ],
    )

  -- `none` is the answer "not found".
  unfoldable pub api_cut_status : CutId → ServerState R → Option CutStatusResponse
  api_cut_status cut_id s =
      Option.map
        (λ (cut : CutState). record {
          cut_id = cut_id;
          requested_at_ns = cut.requested_at_ns;
          pending_connections = length cut.pending_conn_ids;
          acked_connections = length cut.acks;
          pending_conn_ids = keys cut.pending_conn_ids;
        })
        (get cut_id s.cuts)
