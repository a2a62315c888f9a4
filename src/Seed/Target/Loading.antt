-- ===== src/Seed/Target/Loading.antt =====
-- The frames of a stream, as the target's loop reads them: a loader of single items is fed by chunks.
use mariamesh.Base.{
  ℕ, ◌≡◌, refl, ap, sym, ◌∙◌, Bool, true, false, leb, Str, List, [], ◌∷◌, ◌++◌, length, Result, ok,
  ◌>>=◌, Result-cases, Bool-cases, inl, inr, arith,
}
use mariamesh.Changelog.Vector.{Vector}
use mariamesh.Clock.{Clock}
use mariamesh.Seed.Digest.{sum_all}
use mariamesh.Seed.{Driver, SeedError, SeedMessage}
use mariamesh.Seed.Source.{send_chunks}
use mariamesh.Seed.Target.{Target, Transfer, load_frames}

pub append_assoc {ℓ} : {A : Type ℓ} (xs ys zs : List A) → (xs ++ ys) ++ zs ≡ xs ++ (ys ++ zs)
append_assoc [] ys zs = refl
append_assoc (x ∷ xs) ys zs = ap (◌∷◌ x) (append_assoc xs ys zs)

-- A loop over items whose body can fail.
abbrev pub feed {ℓ} :
    {A : Type ℓ}
    → (A → Transfer → Result SeedError Transfer)
    → List A
    → Transfer
    → Result SeedError Transfer
feed f [] s = ok s
feed f (x ∷ xs) s = f x s >>= feed f xs

feed-append {ℓ} :
    {A : Type ℓ} (f : A → Transfer → Result SeedError Transfer) (xs ys : List A) (s : Transfer)
    → feed f (xs ++ ys) s ≡ (feed f xs s >>= feed f ys)
feed-append f [] ys s = refl
feed-append f (x ∷ xs) ys s = elim (Result-cases (f x s)) [
  | inl (a, e) ↦ ground (arith, feed-append f xs ys a)
  | inr (a, e) ↦ ground arith
]

pub append-nil {ℓ} : {A : Type ℓ} (xs : List A) → xs ++ [] ≡ xs
append-nil [] = refl
append-nil (x ∷ xs) = ap (◌∷◌ x) (append-nil xs)

sum_all-append {ℓ} :
    {A : Type ℓ} (item : Str → A → Str) (xs ys : List A) (c : Str)
    → sum_all item c (xs ++ ys) ≡ sum_all item (sum_all item c xs) ys
sum_all-append item [] ys c = refl
sum_all-append item (x ∷ xs) ys c = sum_all-append item xs ys (item c x)

-- The digest after a table's frames is that of its items in order, whatever the chunk size.
pub send_chunks-sum_all {ℓ} :
    {A : Type ℓ} (message : List A → Bool → SeedMessage) (item : Str → A → Str) (chunk : ℕ)
    (xs batch : List A) (c : Str)
    → (send_chunks message item chunk xs batch c).1 ≡ sum_all item c (batch ++ xs)
unfolding send_chunks
send_chunks-sum_all message item chunk [] batch c = ap (sum_all item c) (sym (append-nil batch))
send_chunks-sum_all message item chunk (x ∷ xs) batch c =
    let batch' = batch ++ x ∷ [] in
    let e = ap (sum_all item c) (append_assoc batch (x ∷ []) xs) in
    ground (
      arith,
      e,
      sum_all-append item batch' xs c,
      send_chunks-sum_all message item chunk xs [] (sum_all item c batch'),
      send_chunks-sum_all message item chunk xs batch' c,
    )

-- A frame is read as its items are, one by one.
module _ {A : Type 0} (d : Driver) (t : Target) (v : Vector) (clock : Clock)
    (message : List A → Bool → SeedMessage) (item : Str → A → Str)
    (f : A → Transfer → Result SeedError Transfer)
    (step : (xs : List A) (b : Bool) (ms : List SeedMessage) (s s' : Transfer)
      → feed f xs s ≡ ok s'
      → load_frames d t v (message xs b ∷ ms) clock s ≡ load_frames d t v ms clock s') where
  -- The frames of a list of items load what the items do, whatever the chunk size.
  pub load_frames-send_chunks :
      (chunk : ℕ) (xs batch : List A) (c : Str) (ms : List SeedMessage) (s s' : Transfer)
      → feed f (batch ++ xs) s ≡ ok s'
      → load_frames d t v ((send_chunks message item chunk xs batch c).0 ++ ms) clock s
        ≡ load_frames d t v ms clock s'
  unfolding send_chunks
  load_frames-send_chunks chunk [] batch c ms s s' h =
      step batch true ms s s' (ap (λ l. feed f l s) (sym (append-nil batch)) ∙ h)
  load_frames-send_chunks chunk (x ∷ xs) batch c ms s s' h =
      let batch' = batch ++ x ∷ [] in
      let g = ap (λ l. feed f l s) (append_assoc batch (x ∷ []) xs) ∙ h in
      elim (Bool-cases (leb chunk (length batch'))) [
        | inl e ↦ elim (Result-cases (feed f batch' s)) [
          | inl (a, k) ↦ ground (
            arith,
            step batch' false
                ((send_chunks message item chunk xs [] (sum_all item c batch')).0 ++ ms) s a k,
            load_frames-send_chunks chunk xs [] (sum_all item c batch') ms a s',
            feed-append f batch' xs s,
            g,
          )
          | inr (a, k) ↦ ground (arith, feed-append f batch' xs s, g)
        ]
        | inr e ↦ ground (arith, load_frames-send_chunks chunk xs batch' c ms s s' g)
      ]
