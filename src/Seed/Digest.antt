-- ===== src/Seed/Digest.antt =====
-- `Checksum` of internal/seed/seed.go, as the bytes written so far: the digest is their CRC.
pub mod Prefixes
use mariamesh.Base.{
  ℕ, zero, suc, ◌+◌, ◌/◌, ◌%◌, ltb, if◌then◌else◌, Str, Str-discrete, bytes, List, [], ◌∷◌, ◌++◌,
  map, Map, lookup, Option, none, some,
}
use mariamesh.Changelog.Vector.{Vector, at_key, sort_strings}
use mariamesh.Seed.{Driver, Wire, null, SeedRow}
use mariamesh.Store.Versions.{VersionRow, TombstoneRow}

-- `%d`: the digits of a number with at most `fuel` digits.
unfoldable pub digits : ℕ → ℕ → Str
digits zero n = []
digits (suc fuel) n =
    let rest = digits fuel (n / 10) in
    if ltb n 10 then (48 + n) ∷ [] else rest ++ (48 + n % 10) ∷ []

-- A `uint64` has at most 20 digits.
abbrev pub decimal : ℕ → Str
decimal n = digits 20 n

abbrev pub newline : Str
newline = 10 ∷ []

-- `Table`
abbrev pub sum_table : Str → Str → Str
sum_table name c = c ++ (b'T' ∷ (name ++ newline))

-- The loop of `Row` over the sorted keys.
unfoldable pub sum_cells : Driver → List Str → Map Str Wire → Str → Str
sum_cells d [] values c = c
sum_cells d (k ∷ ks) values c =
    let v = elim (lookup Str-discrete k values) as (λ _. Wire) [ none ↦ null | some w ↦ w ] in
    sum_cells d ks values (c ++ (b'C' ∷ (k ++ (b'=' ∷ (d.marshal v ++ newline)))))

-- `Row`
unfoldable pub sum_row : Driver → Str → SeedRow → Str
unfolding sum_cells
sum_row d c r =
    sum_cells d (sort_strings (map (λ e. e.0) r.values)) r.values (c ++ (b'R' ∷ (r.id ++ newline)))

-- `Version`
unfoldable pub sum_version : Str → VersionRow → Str
unfolding digits
sum_version c v =
    c
    ++ (b'V'
        ∷ (v.row_id
            ++ (b'/'
                ∷ (v.column
                    ++ (b'='
                        ∷ (decimal v.version.hlc.physical
                            ++ (b'/'
                                ∷ (decimal v.version.hlc.logical
                                    ++ (b'/'
                                        ∷ (v.version.origin_id
                                            ++ (b'/'
                                                ∷ (decimal v.version.origin_seq
                                                    ++ newline))))))))))))

-- `Tombstone`
unfoldable pub sum_tombstone : Str → TombstoneRow → Str
unfolding digits
sum_tombstone c v =
    c
    ++ (b'D'
        ∷ (v.row_id
            ++ (b'='
                ∷ (decimal v.version.hlc.physical
                    ++ (b'/'
                        ∷ (decimal v.version.hlc.logical
                            ++ (b'/'
                                ∷ (v.version.origin_id
                                    ++ (b'/' ∷ (decimal v.version.origin_seq ++ newline))))))))))

-- `Vector`
unfoldable pub sum_vector : List Str → Vector → Str → Str
sum_vector [] v c = c
sum_vector (k ∷ ks) v c =
    sum_vector ks v (c ++ (b'O' ∷ (k ++ (b'=' ∷ (decimal (at_key k v) ++ newline)))))

-- The items of a list, in order.
abbrev pub sum_all {ℓ} : {A : Type ℓ} → (Str → A → Str) → Str → List A → Str
sum_all item c [] = c
sum_all item c (x ∷ xs) = sum_all item (item c x) xs
