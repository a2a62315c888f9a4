-- ===== src/Clock/Order.antt =====
-- `HLC.Compare` is a total order on timestamps.
use mariamesh.Base.{◌≡◌, equal, greater, flip, arith}
use mariamesh.Clock.{Hlc, compare_hlc}

pub compare_hlc-equal : (a b : Hlc) → compare_hlc a b ≡ equal → a ≡ b
unfolding compare_hlc
compare_hlc-equal a b h = ground arith

pub compare_hlc_refl : (a : Hlc) → compare_hlc a a ≡ equal
unfolding compare_hlc
compare_hlc_refl a = ground arith

pub compare_hlc-flip : (a b : Hlc) → compare_hlc b a ≡ flip (compare_hlc a b)
unfolding compare_hlc
compare_hlc-flip a b = ground arith

pub compare_hlc_trans :
    (a b c : Hlc)
    → compare_hlc a b ≡ greater
    → compare_hlc b c ≡ greater
    → compare_hlc a c ≡ greater
unfolding compare_hlc
compare_hlc_trans a b c h k = ground arith
