-- ===== src/Examples/Collections.antt =====
-- Inputs for the collection.
use mariamesh.Base.{
  ◌≡◌, ◌≤◌, ◌⊎◌, refl, arith, [], ◌∷◌, bytes, All, ok, err, Str-discrete, ℕ_discrete,
}
use mariamesh.Examples.{a1, b1, log_db, node_of, update_of}
use mariamesh.Changelog.{Origin-discrete, key, parse_key, cut}
use mariamesh.Changelog.Vector.{origins, sort_strings, insert_sorted}
use mariamesh.Changelog.Least.{min_vector, union_keys, add_keys, min_from, min_loop}
use mariamesh.Gc.{
  run, run_keys, watermarks, agree, with_pins, active_vectors, active_keys, stale_epoch, GcResult,
  stale_membership,
}
use mariamesh.Gc.Safety.{run_keeps, run_stale, IsBehind}
use mariamesh.Gc.Gaps.{watermarks_ignore_silent}
use mariamesh.Store.Bootstrap.{has_active_bootstrap}
use mariamesh.Store.Log.{has_event, delete_through, delete_rows, set_gc_watermark}
use mariamesh.Store.Nodes.{list_nodes, get_epoch}
use mariamesh.Store.Progress.{all_progress}
use mariamesh.Store.Tables.{Db, Node, active, gc_meta_key}

-- One active receiver that has the first event.
abbrev mesh : Db
mesh = record log_db {
  nodes = (bytes "b", node_of b1 active 0) ∷ [];
  progress = (record { receiver = b1; origin = a1 }, 1) ∷ [];
}

abbrev after : Db
after = record mesh {
  log = update_of a1 4 ∷ update_of b1 1 ∷ update_of a1 2 ∷ [];
  meta = (gc_meta_key a1, 1) ∷ [];
}

abbrev result : GcResult
result = record { watermarks = (key a1, 1) ∷ []; deleted = 1; origin_count = 1 }

run_keeps_example : has_event a1 2 after.log ≡ has_event a1 2 mesh.log
unfolding run run_keys watermarks agree with_pins active_vectors active_keys stale_epoch min_vector
    union_keys add_keys min_from min_loop origins sort_strings insert_sorted parse_key cut
    has_active_bootstrap delete_through delete_rows set_gc_watermark all_progress Origin-discrete
    Str-discrete ℕ_discrete
run_keeps_example =
    run_keeps 10 mesh after result (key b1) ((key a1, 1) ∷ []) a1 2 refl refl refl (omega arith)

run_stale_example :
    ((run 10 mesh ≡ err stale_membership) × IsBehind (get_epoch mesh) (list_nodes mesh))
    ⊎ ((r : GcResult × Db) × (run 10 mesh ≡ ok r)
        × All (λ n. n.membership_epoch ≤ get_epoch mesh) (list_nodes mesh))
run_stale_example = run_stale 10 mesh

abbrev silent : Node
silent = node_of (record { node_id = bytes "c"; incarnation_id = bytes "1" }) active 0

watermarks_ignore_silent_example :
    watermarks (record mesh { nodes = (bytes "c", silent) ∷ mesh.nodes }) ≡ watermarks mesh
unfolding all_progress Origin-discrete Str-discrete ℕ_discrete
watermarks_ignore_silent_example =
    watermarks_ignore_silent (bytes "c") silent mesh refl (omega arith) refl
