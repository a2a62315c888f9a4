-- ===== src/Apply/Cells/Orders.antt =====
-- The order in which writes arrive makes no difference.
use mathlib.Core.List.{Perm, Permᴰ}
use mathlib.Core.Logic.{∥∥₁_elim}
use mariamesh.Base.{
  ◌≡◌, ◌≢◌, some, none, false, refl, ap, sym, ◌∙◌, Str, List, [], ◌∷◌, All, Option, subst,
}
use mariamesh.Apply.{Tables, apply_row, version_of}
use mariamesh.Apply.Cells.{Cell, Cell-set, cell}
use mariamesh.Apply.Cells.Merge.{merge_comm}
use mariamesh.Apply.Cells.Writes.{step, incoming, merge_payload, cell-apply_row}
use mariamesh.Changelog.{Event, is_delete}
use mariamesh.Changelog.Payload.{Value}
use mariamesh.Conflict.{Version, Version-discrete}
use mariamesh.Store.Tables.{Db, RowKey}

-- Events applied one after the other.
pub apply_rows : Tables → List Event → Db → Db
apply_rows tables [] db = db
apply_rows tables (e ∷ es) db = apply_rows tables es (apply_row tables e db).1

steps : Tables → RowKey → Str → List Event → Cell → Cell
steps tables q col [] c = c
steps tables q col (e ∷ es) c = steps tables q col es (step tables q col e c)

abbrev pub IsWrite : Event → Type 0
IsWrite e = is_delete e.op ≡ false

merge_payload_comm :
    (a b : Version) (x y : Option Value) (c : Cell)
    → a ≢ b
    → merge_payload a x (merge_payload b y c) ≡ merge_payload b y (merge_payload a x c)
unfolding merge_payload
merge_payload_comm a b none none c ne = refl
merge_payload_comm a b none (some y) c ne = refl
merge_payload_comm a b (some x) none c ne = refl
merge_payload_comm a b (some x) (some y) c ne = merge_comm a b x y c ne

cell-apply_rows :
    (tables : Tables) (q : RowKey) (col : Str) (es : List Event) (db : Db)
    → All IsWrite es
    → db.tombstones ≡ []
    → cell q col (apply_rows tables es db) ≡ steps tables q col es (cell q col db)
unfolding apply_rows steps
cell-apply_rows tables q col [] db w t = refl
cell-apply_rows tables q col (e ∷ es) db w t =
    let one = cell-apply_row tables e q col db w.0 t in
    cell-apply_rows tables q col es (apply_row tables e db).1 w.1 one.1
    ∙ ap (steps tables q col es) one.0

All-perm : {es fs : List Event} → (P : Event → Type 0) → Permᴰ es fs → All P es → All P fs
All-perm P Permᴰ.nil k = tt
All-perm P (Permᴰ.cons h p) k = (subst P h k.0, All-perm P p k.1)
All-perm P (Permᴰ.swap h g) k = (subst P g k.1.0, (subst P h k.0, k.1.1))
All-perm P (Permᴰ.trans p r) k = All-perm P r (All-perm P p k)

-- `Known` holds of the events in play: two known events with the same version are the same event.
module _ (Known : Event → Type 0)
    (identified : (e f : Event) → Known e → Known f → version_of e ≡ version_of f → e ≡ f)
    (tables : Tables) (q : RowKey) (col : Str) where
  step_comm :
      (e f : Event) (c : Cell)
      → Known e
      → Known f
      → step tables q col f (step tables q col e c) ≡ step tables q col e (step tables q col f c)
  step_comm e f c ke kf = elim (Version-discrete (version_of e) (version_of f)) [
    | yes h ↦ rw (identified e f ke kf h)
    | no h ↦ sym (
        merge_payload_comm (version_of e) (version_of f) (incoming tables q col e)
          (incoming tables q col f) c h)
  ]

  steps-perm :
      {es fs : List Event} (c : Cell)
      → Permᴰ es fs
      → All Known es
      → All Known fs × (steps tables q col es c ≡ steps tables q col fs c)
  unfolding steps
  steps-perm c Permᴰ.nil k = (tt, refl)
  steps-perm c (Permᴰ.cons {a = e} {b = f} {l₂ = fs} h p) k =
      let rest = steps-perm (step tables q col e c) p k.1 in
      (
        (subst Known h k.0, rest.0),
        rest.1 ∙ ap (λ x. steps tables q col fs (step tables q col x c)) h,
      )
  steps-perm c (Permᴰ.swap {a = e} {b = f} {l = es} h g) k = (
    (subst Known g k.1.0, (subst Known h k.0, k.1.1)),
    ap (steps tables q col es) (step_comm e f c k.0 k.1.0) ∙ λ i.
        steps tables q col es (step tables q col (h i) (step tables q col (g i) c)),
  )
  steps-perm c (Permᴰ.trans p r) k =
      let first = steps-perm c p k in
      let second = steps-perm c r first.0 in (second.0, first.1 ∙ second.1)

  -- On a database without tombstones, the same inserts and updates leave the same value and version
  -- in every cell, in whatever order they arrive, if different events have different versions.
  pub apply_rows-perm :
      {es fs : List Event} (db : Db)
      → Perm es fs
      → All Known es
      → All IsWrite es
      → db.tombstones ≡ []
      → cell q col (apply_rows tables es db) ≡ cell q col (apply_rows tables fs db)
  apply_rows-perm {es} {fs} db p k w t = ∥∥₁_elim p (Cell-set _ _) (λ d.
      cell-apply_rows tables q col es db w t
      ∙ (steps-perm (cell q col db) d k).1
      ∙ sym (cell-apply_rows tables q col fs db (All-perm IsWrite d w) t))
