-- ===== src/Srp/Examples.antt =====
-- Runs of the point operations and the key generation of src/internal/mactelnet/mtwei.go.
use mactelnet_proxy.Base.{
  ℕ, zero, suc, ◌+◌, ◌-◌, ◌*◌, ◌/◌, ◌%◌, ◌<◌, ◌≡◌, refl, arith, ◌&&◌, if◌then◌else◌, ltb, ◌==◌,
  Bytes, length, replicate, take, byte_at, Option, none, some, ok, true, false,
}
use mactelnet_proxy.Auth.Messages.{Hashes}
use mactelnet_proxy.Srp.Curve.{
  BigInt, field_p, gen_x, gen_y, m2w, Point, infinity, affine, generator, mod_sub, chord,
  with_slope, double, add, add_bit, scalar_from, scalar_mult,
}
use mactelnet_proxy.Srp.Exchange.{montgomery_bytes, set_bytes, clamp, keygen}
use mactelnet_proxy.Srp.ExchangeLaws.{montgomery_bytes_lem, keygen_lem}

-- The extended Euclidean algorithm on remainders, with coefficients modulo p.
abbrev euclid : ℕ → ℕ → ℕ → ℕ → ℕ → ℕ → Option ℕ
euclid p zero r0 r1 t0 t1 = none
euclid p (suc fuel) r0 r1 t0 t1 = elim (r1 == 0) [
  | true ↦ if r0 == 1 then some t0 else none
  | false ↦ euclid p fuel r1 (r0 % r1) t1 ((t0 + (p - r0 / r1 * t1 % p)) % p)
]

-- A square root, if the generator's ordinate is one.
abbrev root : ℕ → ℕ → Option ℕ
root x p = if gen_y * gen_y % p == x % p && ltb gen_y p then some gen_y else none

root_lem : (x p y : ℕ) → root x p ≡ some y → (y < p) × (y * y % p ≡ x % p)
root_lem x p y e = ground arith

abbrev numbers : BigInt
numbers = record {
  mod_inverse = λ a p. euclid p 600 p (a % p) 0 1;
  mod_sqrt = root;
  mod_sqrt_lem = root_lem;
}

abbrev point_or : Option Point → Point
point_or none = infinity
point_or (some pt) = pt

-- Three times the generator.
abbrev triple : Point
triple = point_or (scalar_mult numbers 3 generator)

montgomery_bytes_lem_example :
    (bs : Bytes) × (montgomery_bytes generator ≡ ok bs)
    × (length bs ≡ 32)
    × ((set_bytes bs + m2w) % field_p ≡ gen_x)
montgomery_bytes_lem_example = montgomery_bytes_lem gen_x gen_y (omega arith)

abbrev constant_hashes : Hashes
constant_hashes = record {
  md5 = λ b. replicate 16 1;
  sha256 = λ b. replicate 32 2;
  length-md5 = λ b. refl;
  length-sha256 = λ b. refl;
}

-- Random bytes that are all zero give the private number 64.
abbrev zeros : Bytes
zeros = replicate 32 0

abbrev public_x : ℕ
public_x = elim (point_or (scalar_mult numbers 64 generator)) [ infinity ↦ 0 | affine x y ↦ x ]

abbrev public_y : ℕ
public_y = elim (point_or (scalar_mult numbers 64 generator)) [ infinity ↦ 0 | affine x y ↦ y ]

keygen_lem_example :
    (key : Bytes) × (keygen numbers constant_hashes (some zeros) none ≡ ok (64, key))
    × (length key ≡ 33)
    × ((set_bytes (take 32 key) + m2w) % field_p ≡ public_x)
    × (byte_at key 32 ≡ public_y % 2)
unfolding clamp scalar_mult scalar_from add_bit add double with_slope chord mod_sub
keygen_lem_example = keygen_lem numbers constant_hashes zeros public_x public_y refl
