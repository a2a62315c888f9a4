-- ===== src/Conflict/Order.antt =====
-- `Compare` is a total order on versions, so `Wins` is a strict one.
use mariamesh.Base.{
  not, ◌≡◌, ◌≢◌, ◌⊎◌, true, false, arith, equal, greater, flip, compare_str-equal,
  compare_str_trans, compare_str-flip,
}
use mariamesh.Clock.Order.{compare_hlc-equal, compare_hlc_trans, compare_hlc-flip}
use mariamesh.Conflict.{Version, compare_version, wins}

-- Comparing the other way round gives the opposite sign.
pub compare_version-flip : (a b : Version) → compare_version b a ≡ flip (compare_version a b)
unfolding compare_version
compare_version-flip a b =
    ground (arith, compare_hlc-flip a.hlc b.hlc, compare_str-flip a.origin_id b.origin_id)

-- Only equal versions compare as equal.
pub compare_version-equal : (a b : Version) → compare_version a b ≡ equal → a ≡ b
unfolding compare_version
compare_version-equal a b h =
    ground (arith, compare_hlc-equal a.hlc b.hlc, compare_str-equal a.origin_id b.origin_id)

pub compare_version_trans :
    (a b c : Version)
    → compare_version a b ≡ greater
    → compare_version b c ≡ greater
    → compare_version a c ≡ greater
unfolding compare_version
compare_version_trans a b c h k = ground (
  arith,
  compare_hlc-equal a.hlc b.hlc,
  compare_hlc-equal b.hlc c.hlc,
  compare_hlc_trans a.hlc b.hlc c.hlc,
  compare_str-equal a.origin_id b.origin_id,
  compare_str-equal b.origin_id c.origin_id,
  compare_str_trans a.origin_id b.origin_id c.origin_id,
)

-- Of two different versions one wins.
pub wins_total : (a b : Version) → a ≢ b → (wins a b ≡ true) ⊎ (wins b a ≡ true)
unfolding wins
wins_total a b h = ground (arith, compare_version-flip a b, compare_version-equal a b)

pub wins_asym : (a b : Version) → wins a b ≡ true → wins b a ≡ false
unfolding wins
wins_asym a b h = ground (arith, compare_version-flip a b)

pub wins_irrefl : (a : Version) → wins a a ≡ false
wins_irrefl a = ground (arith, wins_asym a a)

-- A version that wins over one that wins over a third wins over the third.
pub wins_trans : (a b c : Version) → wins a b ≡ true → wins b c ≡ true → wins a c ≡ true
unfolding wins
wins_trans a b c h k = ground (arith, compare_version_trans a b c)

-- Of two different versions exactly one wins over the other.
pub wins-flip : (a b : Version) → a ≢ b → wins b a ≡ not (wins a b)
wins-flip a b ne = ground (arith, wins_total a b ne, wins_asym a b)
