-- ===== src/Examples/Logs.antt =====
-- Inputs for the log, the cursors and the vectors.
use mariamesh.Base.{
  ℕ, ltb, leb, ◌&&◌, suc, ◌≡◌, ◌≢◌, ◌≤◌, ◌↔◌, refl, arith, false, [], ◌∷◌, some, ok, err,
  Str-discrete, ℕ_discrete,
}
use mariamesh.Examples.{a1, b1, a1-b1-differ, log_db, log_db-HasUniqueKeys, empty_db}
use mariamesh.Changelog.{Origin-discrete, key, parse_key, cut}
use mariamesh.Changelog.Vector.{Vector, at_key, get}
use mariamesh.Changelog.Missing.{missing, asks_for, asks_for-missing}
use mariamesh.Changelog.Least.{min_vector, min_vector_greatest, IsLowerBound}
use mariamesh.Store.Tables.{Db, gc_meta_key, history_truncated}
use mariamesh.Store.Log.{has_event, fetch_range, gc_watermark, delete_through, delete_rows}
use mariamesh.Store.Log.Deletion.{delete_through_complete, delete_through_forgets}
use mariamesh.Store.Progress.{cursor, advance_contiguous, set_progress}
use mariamesh.Store.Progress.Contiguous.{max_seq, IsFirstGap, advance_contiguous_lem}

abbrev want : Vector
want = (key a1, 4) ∷ (key b1, 1) ∷ []

abbrev have : Vector
have = (key a1, 2) ∷ []

advance_contiguous_lem_example :
    (r : ℕ) × (advance_contiguous (suc (max_seq log_db.log)) b1 a1 log_db
      ≡ some (ok (r, set_progress b1 a1 r log_db)))
    × IsFirstGap a1 log_db.log (cursor b1 a1 log_db.progress) r
advance_contiguous_lem_example =
    advance_contiguous_lem b1 a1 log_db log_db-HasUniqueKeys a1-b1-differ

min_vector_greatest_example :
    (1 ≤ at_key (key a1) (min_vector (have ∷ want ∷ [])))
    ↔ IsLowerBound 1 (key a1) (have ∷ want ∷ [])
min_vector_greatest_example = min_vector_greatest 1 (key a1) have (want ∷ [])

asks_for-missing_example :
    asks_for a1 2 (missing have want) ≡ ltb (get a1 have) 2 && leb 2 (get a1 want)
unfolding parse_key cut
asks_for-missing_example = asks_for-missing a1 2 have want refl

delete_through_complete_example :
    (gc_watermark a1 (delete_through a1 2 10 log_db).1 ≡ 2)
    × (has_event a1 1 (delete_through a1 2 10 log_db).1.log ≡ false)
unfolding delete_through delete_rows Origin-discrete Str-discrete ℕ_discrete
delete_through_complete_example =
    delete_through_complete a1 2 10 1 log_db (omega arith) (omega arith) (omega arith)

abbrev collected : Db
collected = record empty_db { meta = (gc_meta_key a1, 5) ∷ [] }

delete_through_forgets_example :
    (fetch_range (λ p. 10) a1 3 4 2 0 collected ≡ err history_truncated)
    × (fetch_range (λ p. 10) a1 3 4 2 0 (delete_through a1 2 10 collected).1
        ≢ err history_truncated)
unfolding has_event Origin-discrete Str-discrete ℕ_discrete
delete_through_forgets_example =
    delete_through_forgets (λ p. 10) a1 2 10 3 4 2 0 collected (omega arith) (λ s l. refl)
      (omega arith) (omega arith) (omega arith)
