-- ===== src/Changelog/Keys.antt =====
-- `Origin.Key` and `ParseKey` are inverse to each other.
use mariamesh.Base.{◌≡◌, refl, ◌≢◌, Str, [], ◌∷◌, ◌++◌, some, arith, All, inl, inr, Option-cases}
use mariamesh.Changelog.{Origin, colon, key, cut, parse_key}

-- No byte of the text is a colon.
abbrev pub HasNoColon : Str → Type 0
HasNoColon = All (λ c. c ≢ colon)

cut-append : (a b : Str) → HasNoColon a → cut (a ++ (colon ∷ b)) ≡ some (a, b)
unfolding cut
cut-append [] b h = refl
cut-append (c ∷ a) b h = ground (arith, cut-append a b h.1, h.0)

-- A key reads back as its origin, where both parts are non-empty and the node's has no colon.
pub parse_key-key :
    (o : Origin)
    → HasNoColon o.node_id
    → o.node_id ≢ []
    → o.incarnation_id ≢ []
    → parse_key (key o) ≡ some o
unfolding parse_key
parse_key-key o h n i = ground (arith, cut-append o.node_id o.incarnation_id h)

cut-eq-some : (s a b : Str) → cut s ≡ some (a, b) → (s ≡ a ++ (colon ∷ b)) × HasNoColon a
unfolding cut
cut-eq-some [] a b h = cc
cut-eq-some (c ∷ s) [] b h = ground arith
cut-eq-some (c ∷ s) (d ∷ a) b h = ground (arith, cut-eq-some s a b)

-- What `ParseKey` accepts is the key of the origin that it returns, whose parts are non-empty.
pub parse_key_sound :
    (s : Str) (o : Origin)
    → parse_key s ≡ some o
    → (s ≡ key o) × (o.node_id ≢ []) × (o.incarnation_id ≢ []) × HasNoColon o.node_id
unfolding parse_key
parse_key_sound s o h = elim (Option-cases (cut s)) [
  | inl e ↦ ground arith
  | inr (p, e) ↦ ground (arith, cut-eq-some s p.0 p.1)
]
