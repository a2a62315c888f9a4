-- ===== src/Store/Progress/Contiguous.antt =====
-- The windowed scan of `AdvanceContiguous` finds the first gap after the cursor.
use mariamesh.Base.{
  ℕ, zero, suc, ◌+◌, ◌-◌, ◌≡◌, ◌≢◌, ◌≤◌, ◌<◌, ◌||◌, true, false, ltb, ◌==◌, List, [], ◌∷◌, ok,
  arith, none, some, length, take, refl, Bool-cases, inl, inr, subst, ==_iff, dec_lt, max,
}
use mariamesh.Changelog.{Origin, Event}
use mariamesh.Store.Tables.{Db}
use mariamesh.Store.Log.{has_event, select}
use mariamesh.Store.Log.Insertion.{HasUniqueKeys}
use mariamesh.Store.Log.Fetching.{IsAscending, has_event-select, select-IsAscending}
use mariamesh.Store.Progress.{
  scan, read_window, advance_loop, advance_contiguous, cursor, set_progress,
}

ascending_absent :
    (o : Origin) (n s : ℕ) (es : List Event) → IsAscending o n es → s < n → has_event o s es ≡ false
unfolding has_event
ascending_absent o n s [] a l = refl
ascending_absent o n s (e ∷ es) a l = ground (arith, ascending_absent o (suc e.origin_seq) s es)

IsAscending-next :
    (o : Origin) (m n : ℕ) (es : List Event)
    → m ≡ n
    → IsAscending o (suc m) es
    → IsAscending o (n + 1) es
IsAscending-next o m n es p a = subst (λ k. IsAscending o k es) (omega arith) a

scan-le : (n : ℕ) (es : List Event) → n ≤ (scan n es).0
unfolding scan
scan-le n [] = omega arith
scan-le n (e ∷ es) = ground (arith, scan-le (n + 1) es)

-- The rows hold every sequence that the scan has passed.
scan_covers :
    (o : Origin) (n k s : ℕ) (es : List Event)
    → IsAscending o n es
    → n ≤ s
    → s < (scan n (take k es)).0
    → has_event o s es ≡ true
unfolding scan has_event
scan_covers o n zero s es a p q = absurd (omega arith)
scan_covers o n (suc k) s [] a p q = absurd (omega arith)
scan_covers o n (suc k) s (e ∷ es) a p q = elim (Bool-cases (e.origin_seq == n)) [
  | inl same ↦ ground (
    arith,
    scan_covers o (n + 1) k s es
        (IsAscending-next o e.origin_seq n es ((==_iff e.origin_seq n).0 same) a.2),
  )
  | inr other ↦ ground arith
]

-- Where the scan met a gap, or its window was not full, the next sequence is not among the rows.
scan_stops :
    (o : Origin) (n k : ℕ) (es : List Event)
    → IsAscending o n es
    → ((scan n (take k es)).1 || ltb (length (take k es)) k) ≡ true
    → has_event o (scan n (take k es)).0 es ≡ false
unfolding scan has_event
scan_stops o n zero es a h = ground arith
scan_stops o n (suc k) [] a h = refl
scan_stops o n (suc k) (e ∷ es) a h = elim (Bool-cases (e.origin_seq == n)) [
  | inl same ↦ ground (
    arith,
    scan-le (n + 1) (take k es),
    scan_stops o (n + 1) k es
        (IsAscending-next o e.origin_seq n es ((==_iff e.origin_seq n).0 same) a.2),
  )
  | inr more ↦ ground (arith, ascending_absent o (suc e.origin_seq) n es a.2)
]

-- A full window without a gap takes the cursor forward by the window.
scan_full :
    (n k : ℕ) (es : List Event)
    → ((scan n (take k es)).1 || ltb (length (take k es)) k) ≡ false
    → (scan n (take k es)).0 ≡ n + k
unfolding scan
scan_full n zero es h = omega arith
scan_full n (suc k) [] h = ground arith
scan_full n (suc k) (e ∷ es) h = ground (arith, scan_full (n + 1) k es)

-- `r` is the end of the contiguous part of the log after `cur`: every sequence up to `r` is stored,
-- and the next one is not.
pub record IsFirstGap (o : Origin) (log : List Event) (cur r : ℕ) : Type 0 where
  pub forward : cur ≤ r
  pub stored : (s : ℕ) → cur < s → s ≤ r → has_event o s log ≡ true
  pub missing : has_event o (r + 1) log ≡ false

module _ (o : Origin) (log : List Event) (window cur : ℕ) (u : HasUniqueKeys log) where
  read_window-le : cur < (read_window window o log cur).0
  unfolding read_window
  read_window-le = omega (arith, scan-le (cur + 1) (take window (select o (cur + 1) none log)))

  read_window_stored :
      (s : ℕ) → cur < s → s < (read_window window o log cur).0 → has_event o s log ≡ true
  unfolding read_window
  read_window_stored s p q = ground (
    arith,
    scan_covers o (cur + 1) window s (select o (cur + 1) none log)
        (select-IsAscending o (cur + 1) none log u) (omega arith) q,
    has_event-select o s (cur + 1) none log,
  )

  read_window_missing :
      (read_window window o log cur).1 ≡ true
      → has_event o (read_window window o log cur).0 log ≡ false
  unfolding read_window
  read_window_missing h = ground (
    arith,
    scan_stops o (cur + 1) window (select o (cur + 1) none log)
        (select-IsAscending o (cur + 1) none log u) h,
    has_event-select o (read_window window o log cur).0 (cur + 1) none log,
    read_window-le,
  )

  read_window_full :
      (read_window window o log cur).1 ≡ false → (read_window window o log cur).0 ≡ cur + 1 + window
  unfolding read_window
  read_window_full h = scan_full (cur + 1) window (select o (cur + 1) none log) h

advance_loop-IsFirstGap :
    (fuel window : ℕ) (o : Origin) (log : List Event) (cur r : ℕ)
    → HasUniqueKeys log
    → advance_loop fuel window o log cur ≡ some r
    → IsFirstGap o log cur r
unfolding advance_loop
advance_loop-IsFirstGap zero window o log cur r u h = cc
advance_loop-IsFirstGap (suc fuel) window o log cur r u h =
    let n : ℕ = (read_window window o log cur).0 in
    let low = read_window-le o log window cur u in
    elim (Bool-cases (read_window window o log cur).1) [
      | inl stop ↦
          let e : r ≡ n - 1 = ground arith in
          record {
            forward = omega arith;
            stored = λ s p q. read_window_stored o log window cur u s p (omega arith);
            missing =
                subst (λ k. has_event o k log ≡ false) (omega arith)
                  (read_window_missing o log window cur u stop);
          }
      | inr more ↦
          let ih = advance_loop-IsFirstGap fuel window o log (n - 1) r u (ground arith) in
          record {
            forward = omega arith;
            stored = λ s p q. elim (dec_lt s n) [
              | yes a ↦ read_window_stored o log window cur u s p a
              | no b ↦ ih.stored s (omega arith) q
            ];
            missing = ih.missing;
          }
    ]

-- A bound on the sequences in the log.
pub max_seq : List Event → ℕ
max_seq [] = 0
max_seq (e ∷ log) = max e.origin_seq (max_seq log)

le-max_seq : (o : Origin) (s : ℕ) (log : List Event) → has_event o s log ≡ true → s ≤ max_seq log
unfolding has_event max_seq
le-max_seq o s [] h = cc
le-max_seq o s (e ∷ log) h = ground (arith, le-max_seq o s log)

advance_loop_total :
    (fuel window : ℕ) (o : Origin) (log : List Event) (cur : ℕ)
    → HasUniqueKeys log
    → 0 < window
    → max_seq log ≤ cur + fuel
    → (r : ℕ) × (advance_loop (suc fuel) window o log cur ≡ some r)
unfolding advance_loop
advance_loop_total zero window o log cur u w h =
    let n : ℕ = (read_window window o log cur).0 in
    elim (Bool-cases (read_window window o log cur).1) [
      | inl stop ↦ (n - 1, ground arith)
      | inr more ↦ absurd (
          let full = read_window_full o log window cur u more in
          omega (
            arith,
            le-max_seq o (cur + window) log
                (read_window_stored o log window cur u (cur + window) (omega arith) (omega arith)),
          ))
    ]
advance_loop_total (suc fuel) window o log cur u w h =
    let n : ℕ = (read_window window o log cur).0 in
    elim (Bool-cases (read_window window o log cur).1) [
      | inl stop ↦ (n - 1, ground arith)
      | inr more ↦
          let full = read_window_full o log window cur u more in
          let ih = advance_loop_total fuel window o log (n - 1) u w (omega arith) in
          (ih.0, ground (arith, ih.1))
    ]

-- On a log with unique keys, with fuel above every stored sequence, the advance of a remote origin's
-- cursor ends, and it stores and returns the end of the contiguous part of the log after the old cursor.
pub advance_contiguous_lem :
    (receiver origin : Origin) (db : Db)
    → HasUniqueKeys db.log
    → origin ≢ receiver
    → (r : ℕ) × (advance_contiguous (suc (max_seq db.log)) receiver origin db
        ≡ some (ok (r, set_progress receiver origin r db)))
      × IsFirstGap origin db.log (cursor receiver origin db.progress) r
unfolding advance_contiguous
advance_contiguous_lem receiver origin db u ne =
    let cur = cursor receiver origin db.progress in
    let done =
      advance_loop_total (max_seq db.log) 4096 origin db.log cur u (omega arith) (omega arith) in
    (
      done.0,
      ground (arith, done.1),
      advance_loop-IsFirstGap (suc (max_seq db.log)) 4096 origin db.log cur done.0 u done.1,
    )
