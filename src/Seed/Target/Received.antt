-- ===== src/Seed/Target/Received.antt =====
-- The digest of rows that JSON has carried.
use mariamesh.Base.{◌≡◌, refl, ap, ◌∙◌, Str, List, [], ◌∷◌, ◌++◌, map, Map, All, arith}
use mariamesh.Changelog.Vector.{sort_strings}
use mariamesh.Seed.{Driver, Wire, SeedRow, receive_values, receive_row}
use mariamesh.Seed.Digest.{sum_cells, sum_row, sum_all}
use mariamesh.Seed.Target.Steps.{wire_at}

-- JSON gives the received value the text of the one that was sent: an integer up to 2^53, text that is
-- UTF-8.
abbrev pub IsPreserved : Driver → Wire → Type 0
IsPreserved d w = d.marshal (d.transmit w) ≡ d.marshal w

abbrev pub ArePreserved : Driver → List SeedRow → Type 0
ArePreserved d rows = All (λ r. All (λ e. IsPreserved d e.1) r.values) rows

keys-receive_values :
    (d : Driver) (m : Map Str Wire) → map (λ e. e.0) (receive_values d m) ≡ map (λ e. e.0) m
keys-receive_values d [] = refl
keys-receive_values d ((k, w) ∷ m) = ap (λ ks. k ∷ ks) (keys-receive_values d m)

marshal-receive_values :
    (d : Driver) (k : Str) (m : Map Str Wire)
    → All (λ e. IsPreserved d e.1) m
    → d.marshal (wire_at k (receive_values d m)) ≡ d.marshal (wire_at k m)
marshal-receive_values d k [] h = refl
marshal-receive_values d k ((j, w) ∷ m) h = ground (arith, h.0, marshal-receive_values d k m h.1)

sum_cells-receive_values :
    (d : Driver) (ks : List Str) (m : Map Str Wire) (c : Str)
    → All (λ e. IsPreserved d e.1) m
    → sum_cells d ks (receive_values d m) c ≡ sum_cells d ks m c
unfolding sum_cells
sum_cells-receive_values d [] m c h = refl
sum_cells-receive_values d (k ∷ ks) m c h =
    sum_cells-receive_values d ks m _ h
    ∙ ap (λ t. sum_cells d ks m (c ++ (b'C' ∷ (k ++ (b'=' ∷ (t ++ 10 ∷ []))))))
        (marshal-receive_values d k m h)

sum_row-receive_row :
    (d : Driver) (c : Str) (r : SeedRow)
    → All (λ e. IsPreserved d e.1) r.values
    → sum_row d c (receive_row d r) ≡ sum_row d c r
unfolding sum_row
sum_row-receive_row d c r h =
    ap
      (λ ks.
        sum_cells d (sort_strings ks) (receive_values d r.values) (c ++ (b'R' ∷ (r.id ++ 10 ∷ []))))
      (keys-receive_values d r.values)
    ∙ sum_cells-receive_values d (sort_strings (map (λ e. e.0) r.values)) r.values _ h

-- Rows whose values are preserved are summed as they were sent.
pub sum_all-receive_row :
    (d : Driver) (rows : List SeedRow) (c : Str)
    → ArePreserved d rows
    → sum_all (sum_row d) c (map (receive_row d) rows) ≡ sum_all (sum_row d) c rows
sum_all-receive_row d [] c h = refl
sum_all-receive_row d (r ∷ rows) c h =
    sum_all-receive_row d rows _ h.1
    ∙ ap (λ x. sum_all (sum_row d) x rows) (sum_row-receive_row d c r h.0)
