-- ===== src/Changelog/Payload.antt =====
-- The values of an event's payload, and internal/apply/apply.go's `normalizeValue`.
use mariamesh.Base.{
  ℕ_discrete, ℕ, ◌*◌, ◌/◌, ◌%◌, ◌^◌, Bool, false, ◌&&◌, leb, ◌==◌, if◌then◌else◌, Str,
}

-- A finite `float64`: plus or minus `mantissa / 2 ^ halvings`.
pub record Float64 : Type 0 where
  pub is_negative : Bool
  pub mantissa : ℕ
  pub halvings : ℕ

-- A JSON-decoded scalar, the `int64` that `normalizeValue` makes (sign and magnitude), or a nested
-- object or array, which is given by its JSON text.
pub data Value : Type 0 where
  null : Value
  boolean : Bool → Value
  number : Float64 → Value
  integer : Bool → ℕ → Value
  text : Str → Value
  document : Str → Value

-- `t == math.Trunc(t) && t >= -9e15 && t <= 9e15`
abbrev pub fits_integer : Float64 → Bool
fits_integer t = (t.mantissa % 2 ^ t.halvings == 0) && leb t.mantissa (9 * 10 ^ 15 * 2 ^ t.halvings)

-- `normalizeValue`
unfoldable pub normalize_value : Value → Value
normalize_value (number t) =
    if fits_integer t then integer t.is_negative (t.mantissa / 2 ^ t.halvings) else number t
normalize_value (boolean b) = integer false (if b then 1 else 0)
normalize_value (document s) = text s
normalize_value null = null
normalize_value (integer s n) = integer s n
normalize_value (text s) = text s

pub Value-discrete : Discrete Value
Value-discrete = hlevel (ℕ_discrete)
