-- ===== src/Frame/Checksum.antt =====
-- src/internal/mactelnet/conn.go: htons and internetChecksum.
use Prim.Native.Nat.{bit_or}
use mactelnet_proxy.Base.{
  ℕ, zero, suc, ◌+◌, ◌-◌, ◌*◌, ◌/◌, ◌%◌, [], ◌∷◌, Bytes, if◌then◌else◌, ◌==◌, u16_mod, u32_mod,
}

-- `(v<<8)&0xff00 | (v>>8)&0xff` on a uint16: the two bytes change places.
unfoldable pub htons : ℕ → ℕ
htons v = bit_or (v % 256 * 256) (v / 256 % 256)

-- The loop over 16-bit words, and the odd byte at the end; the sum is a uint32.
unfoldable pub sum_words : Bytes → ℕ → ℕ
sum_words [] sum = sum
sum_words (a ∷ []) sum = (sum + a * 256) % u32_mod
sum_words (a ∷ b ∷ rest) sum = sum_words rest ((sum + (a * 256 + b)) % u32_mod)

-- `for sum>>16 != 0`: for a uint32 three rounds are enough.
unfoldable pub fold_carries : ℕ → ℕ → ℕ
fold_carries zero sum = sum
fold_carries (suc fuel) sum =
    let rest = fold_carries fuel (sum % u16_mod + sum / u16_mod) in
    if sum / u16_mod == 0 then sum else rest

-- `internetChecksum`; `^uint16(sum)` is 65535 - sum.
unfoldable pub internet_checksum : Bytes → ℕ
unfolding sum_words fold_carries
internet_checksum b = 65_535 - fold_carries 3 (sum_words b 0) % u16_mod
