-- ===== src/Sync/Sending.antt =====
-- The answer to a Need ends, and ends with a complete batch.
use mariamesh.Base.{
  ℕ, zero, suc, ◌+◌, ◌-◌, ◌≡◌, ◌≢◌, ◌<◌, arith, refl, Bool, true, false, leb, List, [], ◌∷◌, ◌++◌,
  ◌⊎◌, ◌∙◌, Result-cases, inl, inr,
}
use mariamesh.Changelog.{Origin}
use mariamesh.Changelog.Missing.{Range}
use mariamesh.Store.Tables.{Db}
use mariamesh.Store.Log.{fetch_range}
use mariamesh.Sync.{
  Env, Batch, Outcome, finished, truncated, out_of_fuel, last_seq, send_range, send_all,
  send_ranges,
}

-- Whether the last batch is complete, where `terminated` stands for the batches before.
abbrev pub ends_complete : Bool → List Batch → Bool
ends_complete terminated [] = terminated
ends_complete terminated (b ∷ bs) = ends_complete b.complete bs

ends_complete-append :
    (t : Bool) (xs ys : List Batch)
    → ends_complete t (xs ++ ys) ≡ ends_complete (ends_complete t xs) ys
ends_complete-append t [] ys = refl
ends_complete-append t (x ∷ xs) ys = ends_complete-append x.complete xs ys

pub ends_complete_mono :
    (t : Bool) (bs : List Batch) → ends_complete false bs ≡ true → ends_complete t bs ≡ true
ends_complete_mono t [] h = cc
ends_complete_mono t (b ∷ bs) h = h

ends_complete-seam :
    (s t : Bool) (xs ys : List Batch)
    → (t ≡ true → ends_complete s xs ≡ true)
    → ends_complete t ys ≡ true
    → ends_complete s (xs ++ ys) ≡ true
ends_complete-seam s true xs ys h k = ground (arith, ends_complete-append s xs ys)
ends_complete-seam s false xs ys h k =
    ends_complete-append s xs ys ∙ ends_complete_mono (ends_complete s xs) ys k

pub Outcome-cases :
    (o : Outcome) → ((t : Bool) × (o ≡ finished t)) ⊎ ((o ≡ truncated) ⊎ (o ≡ out_of_fuel))
Outcome-cases (finished t) = inl (t, refl)
Outcome-cases truncated = inr (inl refl)
Outcome-cases out_of_fuel = inr (inr refl)

send_range-ends :
    (fuel : ℕ) (env : Env) (db : Db) (o : Origin) (from to : ℕ) (t : Bool)
    → to < from + fuel
    → 0 < fuel
    → ((send_range fuel env db o from to t).1 ≢ out_of_fuel)
      × ((send_range fuel env db o from to t).1 ≡ finished true
          → ends_complete t (send_range fuel env db o from to t).0 ≡ true)
unfolding send_range
send_range-ends zero env db o from to t h p = ground arith
send_range-ends (suc fuel) env db o from to t h p =
    elim (Result-cases
      (fetch_range env.size o from to env.batch_max_events env.batch_max_bytes db)) [
        | inr (x, e) ↦ ground arith
        | inl ([], e) ↦ ground arith
        | inl (e1 ∷ es, e) ↦
            let rest =
              send_range-ends fuel env db o (last_seq e1 es + 1) to (leb to (last_seq e1 es)) in
            ground (arith, rest)
      ]

send_all-ends :
    (env : Env) (db : Db) (rs : List Range) (t : Bool)
    → ((send_all env db rs t).1 ≢ out_of_fuel)
      × ((send_all env db rs t).1 ≡ finished true → ends_complete t (send_all env db rs t).0 ≡ true)
unfolding send_all
send_all-ends env db [] t = ground arith
send_all-ends env db (r ∷ rs) t =
    let one = send_range-ends (r.to - r.from + 1) env db r.origin r.from r.to t in
    let sent = (send_range (r.to - r.from + 1) env db r.origin r.from r.to t).0 in
    elim (Outcome-cases (send_range (r.to - r.from + 1) env db r.origin r.from r.to t).1) [
      | inl (u, e) ↦ ground (
        arith,
        one,
        send_all-ends env db rs t,
        send_all-ends env db rs u,
        ends_complete-seam t u sent (send_all env db rs u).0,
      )
      | inr (inl e) ↦ ground (arith, send_all-ends env db rs t)
      | inr (inr e) ↦ ground (arith, one, send_all-ends env db rs t)
    ]

-- The answer to a Need comes to an end: either with the error for collected history, or with a last
-- batch that is complete.
pub send_ranges_completes :
    (env : Env) (db : Db) (rs : List Range)
    → ((send_ranges env db rs).1 ≡ truncated)
      ⊎ (((send_ranges env db rs).1 ≡ finished true)
          × (ends_complete false (send_ranges env db rs).0 ≡ true))
unfolding send_ranges
send_ranges_completes env db rs =
    let all = send_all-ends env db rs false in
    let sent = (send_all env db rs false).0 in
    elim (Outcome-cases (send_all env db rs false).1) [
      | inl (true, e) ↦ inr (ground arith, ground (arith, all))
      | inl (false, e) ↦ inr (
        ground arith,
        ground
            (arith, ends_complete-append false sent (record { events = []; complete = true } ∷ [])),
      )
      | inr (inl e) ↦ inl (ground arith)
      | inr (inr e) ↦ absurd (all.0 e)
    ]
