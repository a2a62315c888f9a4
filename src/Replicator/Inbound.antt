-- ===== src/Replicator/Inbound.antt =====
-- The inbound sessions of replication.go: the check that `serveSync` installs, and `serveSeed`.
use mariamesh.Base.{not, ◌&&◌, if◌then◌else◌, Str, List, Option, none, some, Result, ok, err}
use mariamesh.Changelog.{is_empty}
use mariamesh.Membership.{check_peer}
use mariamesh.Protocol.{Hello}
use mariamesh.Replicator.{Replicator, learn_peer}
use mariamesh.Seed.{Driver, SeedRequest, SeedStart, SeedMessage}
use mariamesh.Seed.Source.{Source, prepare, Reply, stream, end_stream}
use mariamesh.Store.Nodes.{same_text}
use mariamesh.Store.Tables.{Db}
use mariamesh.Sync.Opening.{OpenError, peer_refused}

-- `env.CheckPeer` of `serveSync`: the result, and what is learned. `cert` is the node that the
-- certificate names, and empty where there is none. The manager's error wraps no error of the session.
unfoldable pub check_caller : Str → Hello → Replicator → Result OpenError (Unit {0}) × Replicator
check_caller cert h r =
    if not (is_empty cert) && not (same_text h.node_id cert)
    then (err peer_refused, r)
    else (let r' = learn_peer h.node_id h.addr r in
        elim (check_peer h r'.members.db) [ ok _ ↦ (ok tt, r') | err x ↦ (err peer_refused, r') ])

-- `serveSeed`: what is written to the joining node, and the database. `reply` is what the source reads
-- at the end.
unfoldable pub serve_seed :
    Driver → Source → Str → SeedRequest → Reply → Db → Option (SeedStart × List SeedMessage) × Db
serve_seed d src cert req reply db =
    let (res, db') = prepare src cert req db in
    elim res [
      | err x ↦ (none, db')
      | ok snap ↦ (some (stream d src snap), (end_stream req reply db').1)
    ]
