-- ===== src/Base/Words.antt =====
-- Byte slices and the fixed-width integers of Go's encoding/binary. A byte is a number below 256;
-- a slice expression past the end is never reached in the code modelled, and reads 0 or is cut here.
use Prim.Native.Nat.{ℕ, zero, suc, ◌+◌, ◌-◌, ◌*◌, ◌/◌, ◌%◌, ◌≤◌, ◌<◌}
use mathlib.Core.Path.{◌≡◌, refl, ap}
use mathlib.Core.Bool.{Bool, true, false, ◌&&◌}
use mathlib.Core.List.{List, [], ◌∷◌, ◌++◌}
use native.Mathlib.Omega.{arith}
use mactelnet_proxy.Base.Tests.{◌==◌}
use mactelnet_proxy.Base.Lists.{length, get_or, take, drop}

abbrev pub Bytes : Type 0
Bytes = List ℕ

abbrev pub IsByte : ℕ → Type 0
IsByte b = b < 256

abbrev pub u16_mod : ℕ
u16_mod = 65_536

abbrev pub u32_mod : ℕ
u32_mod = 4_294_967_296

-- `buf[i]`
abbrev pub byte_at : Bytes → ℕ → ℕ
byte_at buf i = get_or buf i 0

-- `buf[i:j]`
abbrev pub slice : Bytes → ℕ → ℕ → Bytes
slice buf i j = take (j - i) (drop i buf)

-- `copy(dst, src)`: as many bytes as fit.
abbrev pub overwrite : Bytes → Bytes → Bytes
overwrite [] dst = dst
overwrite (s ∷ src) [] = []
overwrite (s ∷ src) (b ∷ dst) = s ∷ overwrite src dst

pub overwrite_same : (src dst : Bytes) → length src ≡ length dst → overwrite src dst ≡ src
overwrite_same [] [] h = refl
overwrite_same [] (b ∷ dst) h = absurd (omega arith)
overwrite_same (s ∷ src) [] h = absurd (omega arith)
overwrite_same (s ∷ src) (b ∷ dst) h = ap (◌∷◌ s) (overwrite_same src dst (omega arith))

-- `copy(buf[off:], src)`
abbrev pub copy_at : Bytes → ℕ → Bytes → Bytes
copy_at buf zero src = overwrite src buf
copy_at [] (suc off) src = []
copy_at (b ∷ buf) (suc off) src = b ∷ copy_at buf off src

pub overwrite_fits :
    (src dst : Bytes) → length src ≤ length dst → overwrite src dst ≡ src ++ drop (length src) dst
overwrite_fits [] dst h = refl
overwrite_fits (s ∷ src) [] h = absurd (omega arith)
overwrite_fits (s ∷ src) (b ∷ dst) h = ap (◌∷◌ s) (overwrite_fits src dst (omega arith))

-- `binary.BigEndian.PutUint16`, as the two bytes that it writes; a uint16 is below 2^16.
abbrev pub be16 : ℕ → Bytes
be16 v = (v / 256 % 256) ∷ (v % 256) ∷ []

abbrev pub be32 : ℕ → Bytes
be32 v = (v / 16_777_216 % 256) ∷ (v / 65_536 % 256) ∷ (v / 256 % 256) ∷ (v % 256) ∷ []

abbrev pub le16 : ℕ → Bytes
le16 v = (v % 256) ∷ (v / 256 % 256) ∷ []

-- `binary.BigEndian.Uint16(buf[off : off+2])` and its relatives.
abbrev pub be16_at : Bytes → ℕ → ℕ
be16_at buf off = byte_at buf off * 256 + byte_at buf (off + 1)

abbrev pub be32_at : Bytes → ℕ → ℕ
be32_at buf off =
    byte_at buf off * 16_777_216
    + byte_at buf (off + 1) * 65_536
    + byte_at buf (off + 2) * 256
    + byte_at buf (off + 3)

abbrev pub le32_at : Bytes → ℕ → ℕ
le32_at buf off =
    byte_at buf off
    + byte_at buf (off + 1) * 256
    + byte_at buf (off + 2) * 65_536
    + byte_at buf (off + 3) * 16_777_216

pub be16_value : (x : ℕ) → x < u16_mod → x / 256 % 256 * 256 + x % 256 ≡ x
be16_value x h = omega arith

-- Equality of byte strings.
abbrev pub equal : Bytes → Bytes → Bool
equal [] [] = true
equal (x ∷ xs) (y ∷ ys) = x == y && equal xs ys
equal _ _ = false

pub equal_refl : (xs : Bytes) → equal xs xs ≡ true
equal_refl [] = refl
equal_refl (x ∷ xs) = ground (arith, equal_refl xs)

pub equal_sound : (xs ys : Bytes) → equal xs ys ≡ true → xs ≡ ys
equal_sound (x ∷ xs) (y ∷ ys) h = ground (arith, equal_sound xs ys)
equal_sound _ _ h = ground arith

-- A six-byte hardware address, `[6]byte`.
pub record Mac : Type 0 where
  pub m0 : ℕ
  pub m1 : ℕ
  pub m2 : ℕ
  pub m3 : ℕ
  pub m4 : ℕ
  pub m5 : ℕ

-- `addr[:]`
abbrev pub mac_bytes : Mac → Bytes
mac_bytes a = a.m0 ∷ a.m1 ∷ a.m2 ∷ a.m3 ∷ a.m4 ∷ a.m5 ∷ []

-- `copy(addr[:], buf[off:off+6])`
abbrev pub mac_at : Bytes → ℕ → Mac
mac_at buf off = record {
  m0 = byte_at buf off;
  m1 = byte_at buf (off + 1);
  m2 = byte_at buf (off + 2);
  m3 = byte_at buf (off + 3);
  m4 = byte_at buf (off + 4);
  m5 = byte_at buf (off + 5);
}

-- `a == b` on arrays.
unfoldable pub mac_eq : Mac → Mac → Bool
mac_eq a b =
    a.m0 == b.m0 && a.m1 == b.m1 && a.m2 == b.m2 && a.m3 == b.m3 && a.m4 == b.m4 && a.m5 == b.m5

pub mac_eq_sound : (a b : Mac) → mac_eq a b ≡ true → a ≡ b
unfolding mac_eq
mac_eq_sound a b h = ground arith

pub mac_eq_refl : (a : Mac) → mac_eq a a ≡ true
unfolding mac_eq
mac_eq_refl a = ground arith
