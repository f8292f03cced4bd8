-- ===== src/Srp/ExchangeLaws.antt =====
-- What the numbers and messages of src/internal/mactelnet/mtwei.go look like on the wire.
use mactelnet_proxy.Base.{
  ℕ, zero, suc, ◌+◌, ◌*◌, ◌/◌, ◌%◌, ◌<◌, ◌≡◌, refl, sym, ◌∙◌, ap, arith, true, ltb, [], ◌∷◌, ◌++◌,
  Bytes, length, length-append, take, take-append_le, byte_at, none, some, ok,
}
use mactelnet_proxy.Auth.Messages.{Hashes}
use mactelnet_proxy.Srp.Curve.{BigInt, field_p, w2m, m2w, affine, generator, scalar_mult}
use mactelnet_proxy.Srp.CurveLaws.{scalar_mult-IsReduced}
use mactelnet_proxy.Srp.Exchange.{
  set_bytes_from, set_bytes, low_bytes, two_256, fill_bytes, montgomery_bytes, keygen, tangled,
  clamp,
}

-- 256 to the n-th.
abbrev limit : ℕ → ℕ
limit zero = 1
limit (suc n) = 256 * limit n

set_bytes_from-append :
    (acc : ℕ) (xs : Bytes) (b : ℕ)
    → set_bytes_from acc (xs ++ b ∷ []) ≡ set_bytes_from acc xs * 256 + b
set_bytes_from-append acc [] b = refl
set_bytes_from-append acc (x ∷ xs) b = set_bytes_from-append (acc * 256 + x) xs b

set_bytes-low_bytes : (n v : ℕ) → v < limit n → set_bytes (low_bytes n v) ≡ v
unfolding low_bytes
set_bytes-low_bytes zero v h = omega arith
set_bytes-low_bytes (suc n) v h =
    set_bytes_from-append 0 (low_bytes n (v / 256)) (v % 256)
    ∙ ap (λ t. t * 256 + v % 256) (set_bytes-low_bytes n (v / 256) (omega arith))
    ∙ omega arith

length-low_bytes : (n v : ℕ) → length (low_bytes n v) ≡ n
unfolding low_bytes
length-low_bytes zero v = refl
length-low_bytes (suc n) v =
    omega
      (arith, length-append (low_bytes n (v / 256)) (v % 256 ∷ []), length-low_bytes n (v / 256))

last_byte : (bs : Bytes) (b n : ℕ) → length bs ≡ n → byte_at (bs ++ b ∷ []) n ≡ b
last_byte [] b zero e = refl
last_byte [] b (suc n) e = absurd (omega arith)
last_byte (c ∷ bs) b zero e = absurd (omega arith)
last_byte (c ∷ bs) b (suc n) e = last_byte bs b n (omega arith)

-- The Montgomery form of a point with a reduced abscissa is 32 bytes, from which the peer's offset gives the
-- abscissa back: FillBytes does not panic, and the two offsets are each other's inverse.
pub montgomery_bytes_lem :
    (x y : ℕ)
    → x < field_p
    → (bs : Bytes) × (montgomery_bytes (affine x y) ≡ ok bs)
      × (length bs ≡ 32)
      × ((set_bytes bs + m2w) % field_p ≡ x)
unfolding montgomery_bytes fill_bytes
montgomery_bytes_lem x y h =
    let v = (x + w2m) % field_p in
    let small : ltb v two_256 ≡ true = ground arith in
    let back : set_bytes (low_bytes 32 v) ≡ v = set_bytes-low_bytes 32 v (omega arith) in
    (low_bytes 32 v, rw small refl, length-low_bytes 32 v, omega (arith, back))

keygen_found :
    (big : BigInt) (hs : Hashes) (raw : Bytes) (x y : ℕ) (bs : Bytes)
    → scalar_mult big (set_bytes (clamp big hs raw)) generator ≡ some (affine x y)
    → montgomery_bytes (affine x y) ≡ ok bs
    → keygen big hs (some raw) none ≡ ok (set_bytes (clamp big hs raw), bs ++ y % 2 ∷ [])
unfolding keygen tangled
keygen_found big hs raw x y bs e m = rw (e, m) refl

-- Where the private multiple of the generator is computed and is not infinity, the key that keygen
-- makes of the random bytes without a validator is 33 bytes that the peer reads back as the multiple's
-- abscissa and the parity of its ordinate.
pub keygen_lem :
    (big : BigInt) (hs : Hashes) (raw : Bytes) (x y : ℕ)
    → scalar_mult big (set_bytes (clamp big hs raw)) generator ≡ some (affine x y)
    → (key : Bytes) × (keygen big hs (some raw) none ≡ ok (set_bytes (clamp big hs raw), key))
      × (length key ≡ 33)
      × ((set_bytes (take 32 key) + m2w) % field_p ≡ x)
      × (byte_at key 32 ≡ y % 2)
keygen_lem big hs raw x y e =
    let reduced =
      scalar_mult-IsReduced big (set_bytes (clamp big hs raw)) generator (affine x y)
        (omega arith, omega arith) e in
    let (bs, m, len, back) = montgomery_bytes_lem x y reduced.0 in
    (
      bs ++ y % 2 ∷ [],
      keygen_found big hs raw x y bs e m,
      omega (arith, length-append bs (y % 2 ∷ []), len),
      rw (take-append_le 32 bs (y % 2 ∷ []) (sym len)) back,
      last_byte bs (y % 2) 32 len,
    )
