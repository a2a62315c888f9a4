-- ===== src/Apply/Cells/Merge.antt =====
-- Last write wins is independent of order.
use mariamesh.Base.{◌≡◌, ◌≢◌, inl, inr, some, none, arith, Option-cases}
use mariamesh.Apply.Cells.{Cell, merge}
use mariamesh.Changelog.Payload.{Value}
use mariamesh.Conflict.{Version}
use mariamesh.Conflict.Order.{wins_total, wins_asym, wins_trans}

merge_comm_some :
    (a b s : Version) (x y : Value) (c : Cell)
    → a ≢ b
    → c.version ≡ some s
    → merge a x (merge b y c) ≡ merge b y (merge a x c)
unfolding merge
merge_comm_some a b s x y c ne e =
    ground
      (arith, wins_total a b ne, wins_asym a b, wins_asym b a, wins_trans a b s, wins_trans b a s)

merge_comm_none :
    (a b : Version) (x y : Value) (c : Cell)
    → a ≢ b
    → c.version ≡ none
    → merge a x (merge b y c) ≡ merge b y (merge a x c)
unfolding merge
merge_comm_none a b x y c ne e = ground (arith, wins_total a b ne, wins_asym a b, wins_asym b a)

-- Two writes with different versions can be merged into a cell in either order.
pub merge_comm :
    (a b : Version) (x y : Value) (c : Cell)
    → a ≢ b
    → merge a x (merge b y c) ≡ merge b y (merge a x c)
merge_comm a b x y c ne = elim (Option-cases c.version) [
  | inl e ↦ merge_comm_none a b x y c ne e
  | inr (s, e) ↦ merge_comm_some a b s x y c ne e
]
