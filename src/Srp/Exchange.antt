-- ===== src/Srp/Exchange.antt =====
-- src/internal/mactelnet/mtwei.go: tangle, keygen and docrypto. A panic, on a point at infinity or on
-- a number that does not fit its bytes, is an outcome of its own.
use mactelnet_proxy.Base.{
  ℕ, zero, suc, ◌+◌, ◌-◌, ◌*◌, ◌/◌, ◌%◌, if◌then◌else◌, ltb, [], ◌∷◌, ◌++◌, Bytes, byte_at, take,
  set, Option, none, some, Result, ok, err, ◌>>=◌,
}
use mactelnet_proxy.Auth.Messages.{Hashes}
use mactelnet_proxy.Srp.Curve.{
  BigInt, field_p, order_n, w2m, m2w, Point, infinity, affine, generator, add, scalar_mult, lift_x,
}

pub data SrpError : Type 0 where
  rand_failed not_on_curve panics : SrpError

abbrev pub or_panic {ℓ} : {A : Type ℓ} → Option A → Result SrpError A
or_panic none = err panics
or_panic (some a) = ok a

-- `SetBytes`: big-endian.
abbrev pub set_bytes_from : ℕ → Bytes → ℕ
set_bytes_from acc [] = acc
set_bytes_from acc (b ∷ bs) = set_bytes_from (acc * 256 + b) bs

abbrev pub set_bytes : Bytes → ℕ
set_bytes bs = set_bytes_from 0 bs

-- The last n bytes of a number, big-endian.
unfoldable pub low_bytes : ℕ → ℕ → Bytes
low_bytes zero v = []
low_bytes (suc n) v = low_bytes n (v / 256) ++ v % 256 ∷ []

abbrev pub two_256 : ℕ
two_256 = 0x10000000000000000000000000000000000000000000000000000000000000000

-- `FillBytes` of 32 bytes
unfoldable pub fill_bytes : ℕ → Result SrpError Bytes
fill_bytes v = if ltb v two_256 then ok (low_bytes 32 v) else err panics

-- A point's `X`, and the bytes of its Montgomery form.
abbrev pub x_of : Point → Result SrpError ℕ
x_of infinity = err panics
x_of (affine x y) = ok x

abbrev pub y_of : Point → Result SrpError ℕ
y_of infinity = err panics
y_of (affine x y) = ok y

unfoldable pub montgomery_bytes : Point → Result SrpError Bytes
montgomery_bytes pt = x_of pt >>= λ x. fill_bytes ((x + w2m) % field_p)

module _ (big : BigInt) (hs : Hashes) where
  -- The loop of `tangle`: it has as many rounds as there are seeds below 2^256, where FillBytes
  -- panics.
  unfoldable pub find_point : ℕ → ℕ → ℕ → Result SrpError Point
  find_point zero edpx negate = err panics
  find_point (suc seeds) edpx negate =
      let x = (set_bytes (hs.sha256 (low_bytes 32 edpx)) + m2w) % field_p in
      elim (lift_x big x negate) [ some pt ↦ ok pt | none ↦ find_point seeds (edpx + 1) negate ]

  -- `tangle`: the validator as a number, and the target after it.
  unfoldable pub tangle : Point → Bytes → ℕ → Result SrpError (ℕ × Point)
  tangle target validator negate = do
    val_pt ← or_panic (scalar_mult big (set_bytes validator) generator)
    buf ← montgomery_bytes val_pt
    let edpx = set_bytes (hs.sha256 buf)
    lifted ← find_point (two_256 - edpx) edpx negate
    sum ← or_panic (add big target lifted)
    ok (set_bytes validator, sum)

  -- `raw[0] &= 248; raw[31] &= 127; raw[31] |= 64`
  unfoldable pub clamp : Bytes → Bytes
  clamp raw =
      let raw = set raw 0 (byte_at raw 0 / 8 * 8 % 256) in set raw 31 (64 + byte_at raw 31 % 64)

  -- The public key with the validator folded in, if there is one.
  unfoldable pub tangled : Point → Option Bytes → Result SrpError Point
  tangled pub' none = ok pub'
  tangled pub' (some validator) = tangle pub' validator 0 >>= λ r. ok r.1

  -- `keygen`; the 32 random bytes are given, if they could be read.
  unfoldable pub keygen : Option Bytes → Option Bytes → Result SrpError (ℕ × Bytes)
  keygen none validator = err rand_failed
  keygen (some raw) validator = do
    let priv = set_bytes (clamp raw)
    pt ← or_panic (scalar_mult big priv generator)
    pt ← tangled pt validator
    x ← montgomery_bytes pt
    y ← y_of pt
    ok (priv, x ++ y % 2 ∷ [])

  abbrev pub or_off_curve : Option Point → Result SrpError Point
  or_off_curve none = err not_on_curve
  or_off_curve (some pt) = ok pt

  -- `docrypto`; the keys have 33 bytes and the validator 32.
  unfoldable pub docrypto : ℕ → Bytes → Bytes → Bytes → Result SrpError Bytes
  docrypto priv server_key client_key validator = do
    let x = (set_bytes (take 32 server_key) + m2w) % field_p
    server_pub ← or_off_curve (lift_x big x (byte_at server_key 32))
    r ← tangle server_pub validator 1
    let h_sum = hs.sha256 (take 32 client_key ++ take 32 server_key)
    let vh = (r.0 * set_bytes h_sum % order_n + priv) % order_n
    pt ← or_panic (scalar_mult big vh r.1)
    z ← montgomery_bytes pt
    ok (take 32 (hs.sha256 (h_sum ++ z)))
