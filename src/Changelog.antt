-- ===== src/Changelog.antt =====
-- internal/changelog/event.go: origins and their keys, events, and the validity test.
pub mod Payload
pub mod Keys
pub mod Vector
pub mod Missing
pub mod Least
use mariamesh.Base.{
  ℕ, ◌+◌, Bool, true, false, not, ◌&&◌, ◌||◌, ◌==◌, if◌then◌else◌, Str, Str-discrete, List, [], ◌∷◌,
  ◌++◌, Map, length, Result, ok, err, ◌>>◌, fail_if, Option, none, some,
}
use mariamesh.Changelog.Payload.{Value}
use mariamesh.Clock.{Hlc}

-- `Operation`: a string in the source. `other` is any text but the three known ones.
pub data Operation : Type 0 where
  op_insert op_update op_delete : Operation
  other : Str → Operation

-- `Operation.Valid`
abbrev pub is_valid_op : Operation → Bool
is_valid_op (other _) = false
is_valid_op _ = true

abbrev pub is_delete : Operation → Bool
is_delete op_delete = true
is_delete _ = false

pub record Origin : Type 0 where
  pub node_id : Str
  pub incarnation_id : Str

unfoldable pub Origin-discrete : Discrete Origin
unfolding Str-discrete
Origin-discrete = hlevel Str-discrete

abbrev pub colon : ℕ
colon = b':'

-- `Origin.Key`
abbrev pub key : Origin → Str
key o = o.node_id ++ (colon ∷ o.incarnation_id)

abbrev pub is_empty {ℓ} : {A : Type ℓ} → List A → Bool
is_empty [] = true
is_empty (x ∷ xs) = false

abbrev pub prepend : ℕ → Option (Str × Str) → Option (Str × Str)
prepend c none = none
prepend c (some (a, b)) = some (c ∷ a, b)

-- `strings.Cut(s, ":")`: what stands before and after the first colon, if there is one.
unfoldable pub cut : Str → Option (Str × Str)
cut [] = none
cut (c ∷ s) = if c == colon then some ([], s) else prepend c (cut s)

-- `ParseKey`; `none` is the error.
unfoldable pub parse_key : Str → Option Origin
unfolding cut
parse_key s = elim (cut s) [
  | none ↦ none
  | some (node, inc) ↦
      if is_empty node || is_empty inc
      then none
      else some (record { node_id = node; incarnation_id = inc })
]

pub record Event : Type 0 where
  pub origin : Origin
  pub origin_seq : ℕ
  pub change_id : Str
  pub table : Str
  pub row_id : Str
  pub op : Operation
  pub hlc : Hlc
  pub payload : Map Str Value

-- The errors of `Event.Validate`.
pub data Invalid : Type 0 where
  missing_origin zero_seq missing_row bad_operation delete_with_payload : Invalid

-- `Event.Validate`
unfoldable pub validate : Event → Result Invalid (Unit {0})
validate e = do
  fail_if (is_empty e.origin.node_id || is_empty e.origin.incarnation_id) missing_origin
  fail_if (e.origin_seq == 0) zero_seq
  fail_if (is_empty e.table || is_empty e.row_id) missing_row
  fail_if (not (is_valid_op e.op)) bad_operation
  fail_if (is_delete e.op && not (is_empty e.payload)) delete_with_payload
