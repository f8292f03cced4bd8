-- ===== src/Srp/CurveLaws.antt =====
-- What the point operations of src/internal/mactelnet/mtwei.go keep.
use mactelnet_proxy.Base.{
  ℕ, zero, suc, ◌*◌, ◌/◌, ◌%◌, ◌≤◌, ◌<◌, ◌≡◌, arith, ◌==◌, Option, none, some, Bool-cases,
  Option-cases, inl, inr,
}
use mathlib.Core.Path.{subst}
use mactelnet_proxy.Srp.Curve.{
  BigInt, field_p, Point, infinity, affine, mod_sub, chord, with_slope, double, add, add_bit,
  scalar_from, scalar_mult, curve_rhs,
}

-- Coordinates below the prime; only `liftX` can give the prime itself for an ordinate.
abbrev pub IsReduced : Point → Type 0
IsReduced infinity = Unit
IsReduced (affine x y) = (x < field_p) × (y ≤ field_p)

abbrev pub AllReduced : Option Point → Type 0
AllReduced none = Unit
AllReduced (some pt) = IsReduced pt

chord-IsReduced : (lam x1 x2 y1 : ℕ) → IsReduced (chord lam x1 x2 y1)
unfolding chord mod_sub
chord-IsReduced lam x1 x2 y1 = (omega arith, omega arith)

with_slope-IsReduced :
    (big : BigInt) (num den x1 x2 y1 : ℕ) → IsReduced (with_slope big num den x1 x2 y1)
unfolding with_slope
with_slope-IsReduced big num den x1 x2 y1 = by_inverse (big.mod_inverse den field_p)
  where
    by_inverse :
        (o : Option ℕ)
        → IsReduced (elim o [ none ↦ infinity | some inv ↦ chord (num * inv % field_p) x1 x2 y1 ])
    by_inverse none = tt
    by_inverse (some inv) = chord-IsReduced (num * inv % field_p) x1 x2 y1

double-IsReduced : (big : BigInt) (pt : Point) → IsReduced (double big pt)
unfolding double
double-IsReduced big infinity = tt
double-IsReduced big (affine x y) = elim (Bool-cases (y == 0)) [
  | inl e ↦ rw e tt
  | inr e ↦ rw e (with_slope-IsReduced big _ _ x x y)
]

add-AllReduced : (big : BigInt) (p q : Point) → IsReduced p → IsReduced q → AllReduced (add big p q)
unfolding add
add-AllReduced big infinity infinity r s = tt
add-AllReduced big infinity (affine x y) r s = s
add-AllReduced big (affine x y) infinity r s = r
add-AllReduced big (affine x1 y1) (affine x2 y2) r s = elim (Bool-cases (x1 == x2)) [
  | inl e ↦ elim (Bool-cases (y1 == y2)) [
    | inl f ↦ rw (e, f) (double-IsReduced big (affine x1 y1))
    | inr f ↦ rw (e, f) tt
  ]
  | inr e ↦ rw e (with_slope-IsReduced big (mod_sub y2 y1) (mod_sub x2 x1) x1 x2 y1)
]

add_bit-AllReduced :
    (big : BigInt) (bit : ℕ) (res cur : Point)
    → IsReduced res
    → IsReduced cur
    → AllReduced (add_bit big bit res cur)
unfolding add_bit
add_bit-AllReduced big bit res cur r s = elim (Bool-cases (bit == 1)) [
  | inl e ↦ rw e (add-AllReduced big res cur r s)
  | inr e ↦ rw e r
]

scalar_from-AllReduced :
    (big : BigInt) (fuel k : ℕ) (res cur : Point)
    → IsReduced res
    → IsReduced cur
    → AllReduced (scalar_from big fuel k res cur)
unfolding scalar_from
scalar_from-AllReduced big fuel zero res cur r s = r
scalar_from-AllReduced big zero (suc k) res cur r s = r
scalar_from-AllReduced big (suc fuel) (suc k) res cur r s =
    elim (Option-cases (add_bit big (suc k % 2) res cur)) [
      | inl e ↦ rw (e, scalar_from) tt
      | inr (sum, e) ↦
          rw (e, scalar_from)
            (scalar_from-AllReduced big fuel (suc k / 2) sum (double big cur)
              (subst AllReduced e (add_bit-AllReduced big (suc k % 2) res cur r s))
              (double-IsReduced big cur))
    ]

pub scalar_mult-IsReduced :
    (big : BigInt) (k : ℕ) (pt q : Point)
    → IsReduced pt
    → scalar_mult big k pt ≡ some q
    → IsReduced q
unfolding scalar_mult
scalar_mult-IsReduced big k infinity q r e = absurd cc
scalar_mult-IsReduced big k (affine x y) q r e =
    subst AllReduced e (scalar_from-AllReduced big k k infinity (affine x y) tt r)

-- A point over x, on the curve, of a parity.
abbrev pub IsRoot : ℕ → ℕ → Point → Type 0
IsRoot x parity pt =
    (y : ℕ) × (pt ≡ affine x y) × (y * y % field_p ≡ curve_rhs x) × (y % 2 ≡ parity) × (y ≤ field_p)
