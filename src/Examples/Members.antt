-- ===== src/Examples/Members.antt =====
-- Inputs for the membership.
use mariamesh.Base.{◌≡◌, refl, arith, [], ◌∷◌, bytes, some, ok, Str-discrete, ℕ_discrete}
use mariamesh.Examples.{b1, empty_db, node_of}
use mariamesh.Membership.{State, add_node, check_peer, raise_epoch}
use mariamesh.Membership.Gossip.{receive_heartbeat, merge_members, merge_member, merge_stored}
use mariamesh.Membership.Additions.{add_node_again}
use mariamesh.Membership.Reachability.{done, after, add, beat, Steps_retired}
use mariamesh.Membership.Retirement.{receive_heartbeat_active}
use mariamesh.Membership.Statuses.{status_of}
use mariamesh.Protocol.{Heartbeat, Hello}
use mariamesh.Store.Tables.{Status, active, retired}
use mariamesh.Store.Nodes.{upsert_node, merge_row, touch_node}

abbrev state_with : Status → State
state_with status = record {
  manager = record {
    namespace = bytes "ns";
    node_id = bytes "a";
    incarnation_id = bytes "1";
    name = bytes "n";
    schema_version = 1;
    addr = bytes "h";
    epoch = 1;
  };
  db = record empty_db { nodes = (bytes "b", node_of b1 status 1) ∷ [] };
}

abbrev heartbeat : Heartbeat
heartbeat = record {
  node_id = bytes "b";
  incarnation_id = bytes "1";
  name = bytes "n";
  status = active;
  schema_version = 1;
  epoch = 5;
  addr = bytes "h";
  members = [];
}

abbrev readded : State
readded = (add_node 8 (bytes "b") (bytes "2") (bytes "n") (bytes "h") 1 (state_with retired)).1

Steps_retired_example :
    status_of (bytes "b") (receive_heartbeat 9 heartbeat readded).db ≡ some retired
unfolding Str-discrete ℕ_discrete
Steps_retired_example =
    Steps_retired {s = state_with retired} {s' = receive_heartbeat 9 heartbeat readded} (bytes "b")
      (after (after done (add 8 (bytes "b") (bytes "2") (bytes "n") (bytes "h") 1))
        (beat 9 heartbeat))
      refl

receive_heartbeat_active_example : status_of (bytes "b") (state_with active).db ≡ some active
unfolding receive_heartbeat merge_members merge_member merge_stored raise_epoch upsert_node
    merge_row touch_node Str-discrete ℕ_discrete
receive_heartbeat_active_example =
    receive_heartbeat_active 9 heartbeat (bytes "b") (state_with active) refl

abbrev hello : Hello
hello = record {
  protocol = 1;
  node_id = bytes "b";
  incarnation_id = bytes "1";
  schema_version = 1;
  membership_epoch = 1;
  addr = bytes "h";
  vector = [];
}

add_node_again_example :
    ((add_node 8 (bytes "b") (bytes "2") (bytes "n") (bytes "h") 1 (state_with retired)).0 ≡ ok tt)
    × (status_of (bytes "b") readded.db ≡ some retired)
    × (check_peer hello readded.db ≡ ok tt)
unfolding Str-discrete ℕ_discrete
add_node_again_example =
    add_node_again 8 (bytes "b") (bytes "2") (bytes "n") (bytes "h") 1 (state_with retired)
      (node_of b1 retired 1) hello refl refl (λ e. ground arith) refl refl
