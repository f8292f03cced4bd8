-- ===== src/Srp/Curve.antt =====
-- src/internal/mactelnet/mtwei.go: affine points over the field of 2^255 - 19. Differences are taken
-- modulo the prime, as Go's Euclidean Mod takes them; `none` is the panic on a nil coordinate.
use mactelnet_proxy.Base.{
  ℕ, zero, suc, ◌+◌, ◌-◌, ◌*◌, ◌/◌, ◌%◌, ◌<◌, ◌≡◌, if◌then◌else◌, ◌==◌, Option, none, some,
}

-- `ModInverse` and `ModSqrt` of math/big, where `none` is a nil result; a square root is reduced and
-- its square is the argument.
pub record BigInt : Type 0 where
  pub mod_inverse : ℕ → ℕ → Option ℕ
  pub mod_sqrt : ℕ → ℕ → Option ℕ
  pub mod_sqrt_lem : (x p y : ℕ) → mod_sqrt x p ≡ some y → (y < p) × (y * y % p ≡ x % p)

abbrev pub field_p : ℕ
field_p = 0x7fffffffffffffffffffffffffffffffffffffffffffffffffffffffffffffed

abbrev pub curve_a : ℕ
curve_a = 0x2aaaaaaaaaaaaaaaaaaaaaaaaaaaaaaaaaaaaaaaaaaaaaaaaaaaaa984914a144

abbrev pub curve_b : ℕ
curve_b = 0x7b425ed097b425ed097b425ed097b425ed097b425ed097b4260b5e9c7710c864

abbrev pub gen_x : ℕ
gen_x = 0x2aaaaaaaaaaaaaaaaaaaaaaaaaaaaaaaaaaaaaaaaaaaaaaaaaaaaaaaaaad245a

abbrev pub gen_y : ℕ
gen_y = 0x5f51e65e475f794b1fe122d388b72eb36dc2b28192839e4dd6163a5d81312c14

abbrev pub order_n : ℕ
order_n = 0x1000000000000000000000000000000014def9dea2f79cd65812631a5cf5d3ed

abbrev pub w2m : ℕ
w2m = 0x555555555555555555555555555555555555555555555555555555555552db9c

abbrev pub m2w : ℕ
m2w = 0x2aaaaaaaaaaaaaaaaaaaaaaaaaaaaaaaaaaaaaaaaaaaaaaaaaaaaaaaaaad2451

-- `point`: the point at infinity has no coordinates.
pub data Point : Type 0 where
  infinity : Point
  affine : ℕ → ℕ → Point

abbrev pub generator : Point
generator = affine gen_x gen_y

-- `z.Sub(a, b)` and `z.Mod(z, p)`
unfoldable pub mod_sub : ℕ → ℕ → ℕ
mod_sub a b = (a + (field_p - b % field_p)) % field_p

-- The last two formulas of `double` and `add`, for the slope.
unfoldable pub chord : ℕ → ℕ → ℕ → ℕ → Point
chord lam x1 x2 y1 =
    let rx = mod_sub (mod_sub (lam * lam) x1) x2 in
    let ry = mod_sub (mod_sub x1 rx * lam) y1 in affine rx ry

-- The slope's numerator over its denominator, and the point; no inverse gives infinity.
unfoldable pub with_slope : BigInt → ℕ → ℕ → ℕ → ℕ → ℕ → Point
with_slope big num den x1 x2 y1 = elim (big.mod_inverse den field_p) [
  | none ↦ infinity
  | some inv ↦ chord (num * inv % field_p) x1 x2 y1
]

-- `double`
unfoldable pub double : BigInt → Point → Point
double big infinity = infinity
double big (affine x y) =
    if y == 0
    then infinity
    else with_slope big ((x * x * 3 + curve_a) % field_p) (2 * y % field_p) x x y

-- `add`
unfoldable pub add : BigInt → Point → Point → Option Point
add big infinity infinity = none
add big infinity (affine x y) = some (affine x y)
add big (affine x y) infinity = some (affine x y)
add big (affine x1 y1) (affine x2 y2) =
    if x1 == x2
    then (if y1 == y2 then some (double big (affine x1 y1)) else some infinity)
    else some (with_slope big (mod_sub y2 y1) (mod_sub x2 x1) x1 x2 y1)

-- A round of `scalarMult`: the sum so far, if the bit is set with the current point.
unfoldable pub add_bit : BigInt → ℕ → Point → Point → Option Point
add_bit big bit res cur = if bit == 1 then add big res cur else some res

-- The loop over the bits that are left of k; k is fuel enough.
unfoldable pub scalar_from : BigInt → ℕ → ℕ → Point → Point → Option Point
scalar_from big fuel zero res cur = some res
scalar_from big zero (suc k) res cur = some res
scalar_from big (suc fuel) (suc k) res cur = elim (add_bit big (suc k % 2) res cur) [
  | none ↦ none
  | some sum ↦ scalar_from big fuel (suc k / 2) sum (double big cur)
]

-- `scalarMult`, which reads the coordinates of its point first.
unfoldable pub scalar_mult : BigInt → ℕ → Point → Option Point
scalar_mult big k infinity = none
scalar_mult big k (affine x y) = scalar_from big k k infinity (affine x y)

-- The right side of the curve's equation.
unfoldable pub curve_rhs : ℕ → ℕ
curve_rhs x = (x * x % field_p * x + curve_a * x + curve_b) % field_p

-- `liftX`; the parity is any byte.
unfoldable pub lift_x : BigInt → ℕ → ℕ → Option Point
lift_x big x y_parity = elim (big.mod_sqrt (curve_rhs x) field_p) [
  | none ↦ none
  | some y ↦ some (affine x (if y % 2 == y_parity then y else field_p - y))
]
