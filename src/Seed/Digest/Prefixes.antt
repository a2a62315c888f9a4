-- ===== src/Seed/Digest/Prefixes.antt =====
-- The digest only grows: each item is written after what was there.
use mariamesh.Base.{ℕ, ◌≡◌, ◌≢◌, refl, subst, sym, Str, List, [], ◌∷◌, ◌++◌, map, Map, arith}
use mariamesh.Changelog.Vector.{sort_strings}
use mariamesh.Seed.{Driver, Wire, SeedRow}
use mariamesh.Seed.Digest.{newline, sum_row, sum_cells, sum_version, sum_tombstone, sum_all}
use mariamesh.Seed.Target.Loading.{append_assoc, append-nil}
use mariamesh.Store.Versions.{VersionRow, TombstoneRow}

-- A text starts with another.
unfoldable pub HasPrefix : Str → Str → Type 0
HasPrefix p s = (w : Str) × (s ≡ p ++ w)

pub HasPrefix-refl : (p : Str) → HasPrefix p p
unfolding HasPrefix
HasPrefix-refl p = ([], sym (append-nil p))

pub HasPrefix-trans : (p q s : Str) → HasPrefix p q → HasPrefix q s → HasPrefix p s
unfolding HasPrefix
HasPrefix-trans p q s (v, e) (w, f) = (v ++ w, ground (arith, append_assoc p v w))

pub HasPrefix-append : (p w : Str) → HasPrefix p (p ++ w)
unfolding HasPrefix
HasPrefix-append p w = (w, refl)

pub HasPrefix-sum_all {ℓ} :
    {A : Type ℓ} (item : Str → A → Str) (c : Str) (xs : List A)
    → ((c : Str) (x : A) → HasPrefix c (item c x))
    → HasPrefix c (sum_all item c xs)
HasPrefix-sum_all item c [] h = HasPrefix-refl c
HasPrefix-sum_all item c (x ∷ xs) h =
    HasPrefix-trans c (item c x) _ (h c x) (HasPrefix-sum_all item (item c x) xs h)

pub HasPrefix-sum_cells :
    (d : Driver) (ks : List Str) (values : Map Str Wire) (c : Str)
    → HasPrefix c (sum_cells d ks values c)
unfolding sum_cells
HasPrefix-sum_cells d [] values c = HasPrefix-refl c
HasPrefix-sum_cells d (k ∷ ks) values c =
    HasPrefix-trans c (c ++ _) _ (HasPrefix-append c _) (HasPrefix-sum_cells d ks values (c ++ _))

-- A row's text starts with `R`.
pub HasPrefix-sum_row :
    (d : Driver) (c : Str) (r : SeedRow) → HasPrefix (c ++ b'R' ∷ []) (sum_row d c r)
unfolding sum_row
HasPrefix-sum_row d c r =
    let text = b'R' ∷ (r.id ++ newline) in
    HasPrefix-trans (c ++ b'R' ∷ []) (c ++ text) _
      (subst (HasPrefix (c ++ b'R' ∷ [])) (append_assoc c (b'R' ∷ []) (r.id ++ newline))
        (HasPrefix-append (c ++ b'R' ∷ []) (r.id ++ newline)))
      (HasPrefix-sum_cells d (sort_strings (map (λ e. e.0) r.values)) r.values (c ++ text))

pub HasPrefix-sum_version : (c : Str) (x : VersionRow) → HasPrefix c (sum_version c x)
unfolding sum_version HasPrefix
HasPrefix-sum_version c x = (_, refl)

pub HasPrefix-sum_tombstone : (c : Str) (x : TombstoneRow) → HasPrefix c (sum_tombstone c x)
unfolding sum_tombstone HasPrefix
HasPrefix-sum_tombstone c x = (_, refl)

-- Texts that go on with different bytes differ.
pub HasPrefix-differ :
    (c s t : Str) (x y : ℕ) → HasPrefix (c ++ x ∷ []) s → HasPrefix (c ++ y ∷ []) t → x ≢ y → s ≢ t
unfolding HasPrefix
HasPrefix-differ [] s t x y (v, e) (w, f) n g = ground arith
HasPrefix-differ (z ∷ c) s t x y (v, e) (w, f) n g =
    HasPrefix-differ c (c ++ x ∷ [] ++ v) (c ++ y ∷ [] ++ w) x y (v, refl) (w, refl) n
      (ground arith)
