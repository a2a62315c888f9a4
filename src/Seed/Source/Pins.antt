-- ===== src/Seed/Source/Pins.antt =====
-- The pins that `Prepare` stores, and the collections that follow it.
use mariamesh.Base.{
  ℕ, ◌≡◌, ◌<◌, inl, inr, some, true, false, arith, refl, Str, Str-discrete, List, [], ◌∷◌, lookup,
  lookup-insert, lookup-insert_self, ◌⊎◌, ◌↔◌, ok, err, Option-cases, Result-cases,
}
use mariamesh.Changelog.{Origin, key, parse_key}
use mariamesh.Changelog.Keys.{parse_key_sound}
use mariamesh.Changelog.Vector.{Vector, at_key, origins, contains}
use mariamesh.Gc.{run, GcResult}
use mariamesh.Gc.Pins.{run_keeps_pinned}
use mariamesh.Seed.{SeedRequest, SeedError, store_error}
use mariamesh.Seed.Source.{
  Source, Snapshot, check_request, pin_all, prepare, Reply, nothing, acknowledged, unexpected,
  end_stream,
}
use mariamesh.Store.Bootstrap.{
  create_bootstrap, set_bootstrap_vector, finish_bootstrap, is_started, is_active_pin,
}
use mariamesh.Store.LocalState.{load_local_state}
use mariamesh.Store.Log.{has_event}
use mariamesh.Store.Progress.{local_vector}
use mariamesh.Store.Tables.{
  Db, Bootstrap, PinKey, PinKey-discrete, SeedStatus, started, completed, aborted, no_local_state,
}

abbrev pub pin_key : Str → Origin → PinKey
pin_key id o = record { bootstrap_id = id; origin = o }

pin_all-bootstraps :
    (id : Str) (ks : List Str) (v : Vector) (db : Db)
    → (pin_all id ks v db).bootstraps ≡ db.bootstraps
unfolding pin_all set_bootstrap_vector
pin_all-bootstraps id [] v db = refl
pin_all-bootstraps id (k ∷ ks) v db = elim (Option-cases (parse_key k)) [
  | inl e ↦ ground (arith, pin_all-bootstraps id ks v db)
  | inr (o, e) ↦
      ground (arith, pin_all-bootstraps id ks v (set_bootstrap_vector id o (at_key k v) db))
]

-- A pin of an origin that is stored stays what the vector has.
pin_all-keeps :
    (id : Str) (o : Origin) (ks : List Str) (v : Vector) (db : Db)
    → lookup PinKey-discrete (pin_key id o) db.bootstrap_vectors ≡ some (at_key (key o) v)
    → lookup PinKey-discrete (pin_key id o) (pin_all id ks v db).bootstrap_vectors
      ≡ some (at_key (key o) v)
unfolding pin_all set_bootstrap_vector
pin_all-keeps id o [] v db h = h
pin_all-keeps id o (k ∷ ks) v db h = elim (Option-cases (parse_key k)) [
  | inl e ↦ ground (arith, pin_all-keeps id o ks v db h)
  | inr (p, e) ↦
      let k_key = (parse_key_sound k p e).0 in
      let stored =
        lookup-insert PinKey-discrete (pin_key id o) (pin_key id p) (at_key k v)
          db.bootstrap_vectors in
      let rest = pin_all-keeps id o ks v (set_bootstrap_vector id p (at_key k v) db) in
      ground (arith, k_key, stored, rest)
]

pin_all_stores :
    (id : Str) (o : Origin) (ks : List Str) (v : Vector) (db : Db)
    → parse_key (key o) ≡ some o
    → contains (key o) ks ≡ true
    → lookup PinKey-discrete (pin_key id o) (pin_all id ks v db).bootstrap_vectors
      ≡ some (at_key (key o) v)
unfolding pin_all set_bootstrap_vector
pin_all_stores id o [] v db p c = cc
pin_all_stores id o (k ∷ ks) v db p c = elim (Str-discrete (key o) k) [
  | yes e ↦
      let stored =
        lookup-insert PinKey-discrete (pin_key id o) (pin_key id o) (at_key k v)
          db.bootstrap_vectors in
      ground (arith, stored, pin_all-keeps id o ks v (set_bootstrap_vector id o (at_key k v) db))
  | no e ↦ elim (Option-cases (parse_key k)) [
    | inl n ↦ ground (arith, pin_all_stores id o ks v db p)
    | inr (q, n) ↦
        ground (arith, pin_all_stores id o ks v (set_bootstrap_vector id q (at_key k v) db) p)
  ]
]

-- What `Prepare` leaves for an origin of the snapshot's vector.
record IsPinned (id : Str) (o : Origin) (n : ℕ) (db : Db) : Type 0 where
  session : Bootstrap
  stored : lookup Str-discrete id db.bootstraps ≡ some session
  active : session.status ≡ started
  pin : lookup PinKey-discrete (pin_key id o) db.bootstrap_vectors ≡ some n

prepare-IsPinned :
    (src : Source) (peer : Str) (req : SeedRequest) (db db' : Db) (snap : Snapshot) (o : Origin)
    → prepare src peer req db ≡ (ok snap, db')
    → parse_key (key o) ≡ some o
    → contains (key o) (origins snap.vector) ≡ true
    → IsPinned req.bootstrap_id o (at_key (key o) snap.vector) db'
unfolding prepare create_bootstrap
prepare-IsPinned src peer req db db' snap o h p c =
    elim (Result-cases (check_request src peer req db)) [
      | inl (u, e) ↦ elim (Option-cases (lookup Str-discrete req.bootstrap_id db.bootstraps)) [
        | inl f ↦
            let b : Bootstrap = record {
              id = req.bootstrap_id;
              joining_node_id = req.joining_node_id;
              joining_incarnation_id = req.joining_incarnation_id;
              status = started;
              schema_version = req.schema_version;
            } in
            let db1 : Db = record db { bootstraps = (req.bootstrap_id, b) ∷ db.bootstraps } in
            elim (Result-cases (load_local_state db1)) [
              | inl (st, g) ↦
                  let self : Origin = record {
                    node_id = st.node_id;
                    incarnation_id = st.incarnation_id;
                  } in
                  let v = local_vector self db1 in
                  record {
                    session = b;
                    stored = ground (arith, pin_all-bootstraps req.bootstrap_id (origins v) v db1);
                    active = refl;
                    pin = ground (arith, pin_all_stores req.bootstrap_id o (origins v) v db1 p);
                  }
              | inr (x, g) ↦ ground arith
            ]
        | inr (b, f) ↦ ground arith
      ]
      | inr (x, e) ↦ ground arith
    ]

-- After `Prepare` has returned a snapshot, a collection that runs keeps every event of an origin of
-- the snapshot's vector beyond the vector's sequence for it. The origin's key is one that reads back.
pub prepare_keeps :
    (src : Source) (peer : Str) (req : SeedRequest) (db db' db'' : Db) (snap : Snapshot)
    (o : Origin) (limit s : ℕ) (res : GcResult)
    → prepare src peer req db ≡ (ok snap, db')
    → parse_key (key o) ≡ some o
    → contains (key o) (origins snap.vector) ≡ true
    → run limit db' ≡ ok (res, db'')
    → at_key (key o) snap.vector < s
    → has_event o s db''.log ≡ has_event o s db'.log
prepare_keeps src peer req db db' db'' snap o limit s res h p c r g =
    let pinned = prepare-IsPinned src peer req db db' snap o h p c in
    run_keeps_pinned limit db' db'' res req.bootstrap_id pinned.session o
      (at_key (key o) snap.vector) s r pinned.stored pinned.active pinned.pin g

-- A request that `Prepare` refuses leaves the database as it was, or leaves an aborted session: the
-- latter where the node has no local state.
pub prepare_refused :
    (src : Source) (peer : Str) (req : SeedRequest) (db db' : Db) (x : SeedError)
    → prepare src peer req db ≡ (err x, db')
    → (db' ≡ db)
      ⊎ ((b : Bootstrap) × (x ≡ store_error no_local_state)
          × (lookup Str-discrete req.bootstrap_id db'.bootstraps ≡ some b)
          × (b.status ≡ aborted))
unfolding prepare create_bootstrap load_local_state finish_bootstrap
prepare_refused src peer req db db' x h = elim (Result-cases (check_request src peer req db)) [
  | inr (y, e) ↦ inl (ground arith)
  | inl (u, e) ↦ elim (Option-cases (lookup Str-discrete req.bootstrap_id db.bootstraps)) [
    | inr (b, f) ↦ inl (ground arith)
    | inl f ↦ elim (Option-cases db.local_state) [
      | inl g ↦
          let b : Bootstrap = record {
            id = req.bootstrap_id;
            joining_node_id = req.joining_node_id;
            joining_incarnation_id = req.joining_incarnation_id;
            status = aborted;
            schema_version = req.schema_version;
          } in
          inr (b, ground arith, ground arith, refl)
      | inr (st, g) ↦ ground arith
    ]
  ]
]

finish_bootstrap_releases :
    (id : Str) (o : Origin) (status : SeedStatus) (db : Db)
    → is_started status ≡ false
    → is_active_pin (finish_bootstrap id status db).bootstraps (pin_key id o) ≡ false
unfolding finish_bootstrap
finish_bootstrap_releases id o status db h =
    elim (Option-cases (lookup Str-discrete id db.bootstraps)) [
      | inl e ↦ ground arith
      | inr (b, e) ↦
          ground
            (arith, lookup-insert_self Str-discrete id (record b { status = status }) db.bootstraps)
    ]

-- However a stream ends, its session's pins no longer hold back a collection, and the call succeeds
-- exactly on an acknowledgement.
pub end_stream_releases :
    (req : SeedRequest) (reply : Reply) (o : Origin) (db : Db)
    → (is_active_pin (end_stream req reply db).1.bootstraps (pin_key req.bootstrap_id o) ≡ false)
      × (((end_stream req reply db).0 ≡ ok tt) ↔ (reply ≡ acknowledged))
unfolding end_stream
end_stream_releases req acknowledged o db =
    (finish_bootstrap_releases req.bootstrap_id o completed db refl, ground arith)
end_stream_releases req unexpected o db =
    (finish_bootstrap_releases req.bootstrap_id o aborted db refl, ground arith)
end_stream_releases req nothing o db =
    (finish_bootstrap_releases req.bootstrap_id o aborted db refl, ground arith)
