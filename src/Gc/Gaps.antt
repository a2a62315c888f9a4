-- ===== src/Gc/Gaps.antt =====
-- Receivers that a collection does not wait for.
use mariamesh.Base.{
  ◌≡◌, ◌≤◌, none, true, arith, refl, Str, Str-discrete, List, [], ◌∷◌, Map, lookup,
}
use mariamesh.Changelog.Vector.{Vector}
use mariamesh.Gc.{watermarks, agree, with_pins, active_vectors, active_keys, stale_epoch, node_key}
use mariamesh.Store.Tables.{Db, Node}
use mariamesh.Store.Nodes.{list_nodes, get_epoch, is_active}
use mariamesh.Store.Progress.{all_progress}

active_vectors-absent :
    (k : Str) (keys : List Str) (m : Map Str Vector)
    → lookup Str-discrete k m ≡ none
    → active_vectors (k ∷ keys) m ≡ active_vectors keys m
unfolding active_vectors
active_vectors-absent k keys [] h = refl
active_vectors-absent k keys ((j, v) ∷ m) h = ground (arith, active_vectors-absent k keys m)

agree-nodes :
    (nodes : Map Str Node) (db : Db) (vs : List Vector)
    → agree (record db { nodes = nodes }) vs ≡ agree db vs
unfolding agree with_pins
agree-nodes nodes db [] = refl
agree-nodes nodes db (v ∷ vs) = refl

-- A node that is ACTIVE but has no stored progress is left out of the agreement: the watermarks are
-- those of the same database without it, where its epoch is not newer than the local one.
pub watermarks_ignore_silent :
    (id : Str) (n : Node) (db : Db)
    → is_active n.status ≡ true
    → n.membership_epoch ≤ get_epoch db
    → lookup Str-discrete (node_key n) (all_progress db.progress) ≡ none
    → watermarks (record db { nodes = (id, n) ∷ db.nodes }) ≡ watermarks db
unfolding watermarks active_keys stale_epoch
watermarks_ignore_silent id n db a e l = ground (
  arith,
  active_vectors-absent (node_key n) (active_keys (list_nodes db)) (all_progress db.progress) l,
  agree-nodes ((id, n) ∷ db.nodes) db
      (active_vectors (active_keys (list_nodes db)) (all_progress db.progress)),
)
