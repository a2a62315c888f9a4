-- ===== src/Membership/Additions.antt =====
-- What `AddNode` does on each branch, and whom a later HELLO check accepts.
use mariamesh.Base.{ℕ, ◌≡◌, ◌≢◌, ◌+◌, arith, Str, some, ok}
use mariamesh.Protocol.{Hello}
use mariamesh.Store.Tables.{Node, joining, retired}
use mariamesh.Store.Nodes.{get_node, get_epoch, set_epoch}
use mariamesh.Membership.{State, check_peer, new_node, add_node, add_body, with_tx, bump_epoch}
use mariamesh.Membership.Statuses.{status_of, status_of-upsert_old}
use mariamesh.Store.Nodes.{merge_row, get_node-upsert_node}

-- Adding a RETIRED node with another incarnation succeeds, but leaves it RETIRED; the incarnation
-- that was retired then passes the check of a HELLO.
pub add_node_again :
    (now : ℕ) (id inc name addr : Str) (schema : ℕ) (s : State) (n : Node) (h : Hello)
    → get_node id s.db ≡ some n
    → n.status ≡ retired
    → n.incarnation_id ≢ inc
    → h.node_id ≡ id
    → h.incarnation_id ≡ n.incarnation_id
    → ((add_node now id inc name addr schema s).0 ≡ ok tt)
      × (status_of id (add_node now id inc name addr schema s).1.db ≡ some retired)
      × (check_peer h (add_node now id inc name addr schema s).1.db ≡ ok tt)
unfolding add_node with_tx add_body bump_epoch check_peer merge_row
add_node_again now id inc name addr schema s n h e r d same_id same_inc =
    let next = get_epoch s.db + 1 in
    let row = new_node id inc name joining next schema addr in
    let stored = get_node-upsert_node now row n id (set_epoch next s.db) e in
    let kept = status_of-upsert_old now row n id (set_epoch next s.db) e in
    (ground (arith), ground (arith), ground (arith))
