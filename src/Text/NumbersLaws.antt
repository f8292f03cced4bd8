-- ===== src/Text/NumbersLaws.antt =====
-- What the parsers of strconv read back from the digits that Itoa writes.
use mactelnet_proxy.Base.{
  ℕ, zero, suc, ◌+◌, ◌*◌, ◌/◌, ◌%◌, ◌≤◌, ◌<◌, ◌≡◌, refl, ◌∙◌, ap, arith, ◌⊎◌, inl, inr, Bool, true,
  false, ◌&&◌, ltb, ltb→lt, lt→ltb, ◌==◌, Bool-cases, Option-cases, [], ◌∷◌, ◌++◌, Bytes, All,
  All-append, length, length-append, Option, none, some,
}
use mactelnet_proxy.Text.Numbers.{
  itoa, itoa_from, digit_value, push_digit, parse_digits, parse_decimal, parse_uint, read_base,
  has_underscore,
}

abbrev pub then_digits : Bool → ℕ → ℕ → Bytes → Option ℕ → Option ℕ
then_digits b0 base max cs none = none
then_digits b0 base max cs (some m) = parse_digits b0 base max cs m

pub parse_digits-append :
    (b0 : Bool) (base max : ℕ) (xs ys : Bytes) (n : ℕ)
    → parse_digits b0 base max (xs ++ ys) n
      ≡ then_digits b0 base max ys (parse_digits b0 base max xs n)
unfolding parse_digits
parse_digits-append b0 base max [] ys n = refl
parse_digits-append b0 base max (x ∷ xs) ys n = elim (Bool-cases (x == b'_' && b0)) [
  | inl e ↦ rw (e, parse_digits) (parse_digits-append b0 base max xs ys n)
  | inr e ↦ elim (Option-cases (push_digit base max n x)) [
    | inl k ↦ rw (e, parse_digits) (rw k refl)
    | inr (m, k) ↦ rw (e, parse_digits) (rw k (parse_digits-append b0 base max xs ys m))
  ]
]

-- The two equations of a round of Itoa.
itoa_from_small : (fuel n : ℕ) → n < 10 → itoa_from (suc fuel) n ≡ (b'0' + n) ∷ []
unfolding itoa_from
itoa_from_small fuel n h = rw (lt→ltb n 10 h, itoa_from) refl

itoa_from_large :
    (fuel n : ℕ) → 10 ≤ n → itoa_from (suc fuel) n ≡ itoa_from fuel (n / 10) ++ (b'0' + n % 10) ∷ []
unfolding itoa_from
itoa_from_large fuel n h = let e : ltb n 10 ≡ false = ground arith in rw (e, itoa_from) refl

small_or_large : (n : ℕ) → (n < 10) ⊎ (10 ≤ n)
small_or_large n = elim (Bool-cases (ltb n 10)) [
  | inl h ↦ inl (ltb→lt n 10 h)
  | inr h ↦ inr (ground (arith, h))
]

pub push_digit_dec :
    (max n d : ℕ) → d < 10 → n * 10 + d ≤ max → push_digit 10 max n (b'0' + d) ≡ some (n * 10 + d)
unfolding push_digit digit_value
push_digit_dec max n d h k = ground arith

one_digit :
    (b0 : Bool) (max n d : ℕ)
    → d < 10
    → n * 10 + d ≤ max
    → parse_digits b0 10 max ((b'0' + d) ∷ []) n ≡ some (n * 10 + d)
unfolding parse_digits
one_digit b0 max n d h k = ground (arith, push_digit_dec max n d h k)

pub parse_digits-itoa_from :
    (b0 : Bool) (max fuel n : ℕ)
    → n < fuel
    → n ≤ max
    → parse_digits b0 10 max (itoa_from fuel n) 0 ≡ some n
parse_digits-itoa_from b0 max zero n h k = absurd (omega arith)
parse_digits-itoa_from b0 max (suc fuel) n h k = elim (small_or_large n) [
  | inl small ↦
      let e : 0 * 10 + n ≡ n = omega arith in
      rw (itoa_from_small fuel n small) (one_digit b0 max 0 n small (omega arith) ∙ ap some e)
  | inr more ↦
      let first = parse_digits-itoa_from b0 max fuel (n / 10) (omega arith) (omega arith) in
      let e : n / 10 * 10 + n % 10 ≡ n = omega arith in
      rw (itoa_from_large fuel n more) (
        parse_digits-append b0 10 max (itoa_from fuel (n / 10)) ((b'0' + n % 10) ∷ []) 0
        ∙ ap (then_digits b0 10 max ((b'0' + n % 10) ∷ [])) first
        ∙ one_digit b0 max (n / 10) (n % 10) (omega arith) (omega arith)
        ∙ ap some e)
]

pub parse_digits-itoa :
    (b0 : Bool) (max n : ℕ) → n ≤ max → parse_digits b0 10 max (itoa n) 0 ≡ some n
unfolding itoa
parse_digits-itoa b0 max n k = parse_digits-itoa_from b0 max (suc n) n (omega arith) k

-- The digits of a number: there are some, they are digits, and the first is no zero but for zero.
abbrev pub IsDigit : ℕ → Type 0
IsDigit c = (b'0' ≤ c) × (c ≤ b'9')

pub itoa_from-Digits : (fuel n : ℕ) → All IsDigit (itoa_from fuel n)
unfolding itoa_from
itoa_from-Digits zero n = tt
itoa_from-Digits (suc fuel) n = elim (small_or_large n) [
  | inl small ↦ rw (itoa_from_small fuel n small) ((omega arith, omega arith), tt)
  | inr large ↦ rw (itoa_from_large fuel n large) (
      All-append IsDigit (itoa_from fuel (n / 10)) ((b'0' + n % 10) ∷ [])
        (itoa_from-Digits fuel (n / 10)) ((omega arith, omega arith), tt))
]

-- A text that begins with a digit other than zero.
pub data Leads : Bytes → Type 0 where
  leads : (c : ℕ) (cs : Bytes) → b'0' < c → c ≤ b'9' → Leads (c ∷ cs)

Leads-append : {xs : Bytes} (ys : Bytes) → Leads xs → Leads (xs ++ ys)
Leads-append ys (leads c cs h k) = leads c (cs ++ ys) h k

itoa_from-Leads : (fuel n : ℕ) → n < fuel → 0 < n → Leads (itoa_from fuel n)
itoa_from-Leads zero n h k = absurd (omega arith)
itoa_from-Leads (suc fuel) n h k = elim (small_or_large n) [
  | inl small ↦ rw (itoa_from_small fuel n small) (leads (b'0' + n) [] (omega arith) (omega arith))
  | inr more ↦ rw (itoa_from_large fuel n more) (
      Leads-append ((b'0' + n % 10) ∷ [])
        (itoa_from-Leads fuel (n / 10) (omega arith) (omega arith)))
]

no_underscore : (cs : Bytes) → All IsDigit cs → has_underscore cs ≡ false
no_underscore [] h = refl
no_underscore (c ∷ cs) h = ground (arith, no_underscore cs h.1)

parse_uint_digits :
    (max : ℕ) (cs : Bytes)
    → Leads cs
    → All IsDigit cs
    → parse_uint max cs ≡ parse_digits true 10 max cs 0
unfolding parse_uint read_base
parse_uint_digits max _ (leads c [] h k) d = rw (no_underscore _ d) (ground arith)
parse_uint_digits max _ (leads c (x ∷ []) h k) d = rw (no_underscore _ d) (ground arith)
parse_uint_digits max _ (leads c (x ∷ y ∷ cs) h k) d = rw (no_underscore _ d) (ground arith)

-- `strconv.ParseUint(strconv.Itoa(n), 0, bits)`: the base that is left open is found to be ten.
pub parse_uint-itoa : (max n : ℕ) → n ≤ max → parse_uint max (itoa n) ≡ some n
unfolding itoa itoa_from parse_uint parse_digits read_base push_digit digit_value
parse_uint-itoa max zero k = refl
parse_uint-itoa max (suc n) k =
    parse_uint_digits max (itoa (suc n))
      (itoa_from-Leads (suc (suc n)) (suc n) (omega arith) (omega arith))
      (itoa_from-Digits (suc (suc n)) (suc n))
    ∙ parse_digits-itoa true max (suc n) k

pub itoa-Leads : (n : ℕ) → 0 < n → Leads (itoa n)
unfolding itoa
itoa-Leads n h = itoa_from-Leads (suc n) n (omega arith) h

pub itoa-Digits : (n : ℕ) → All IsDigit (itoa n)
unfolding itoa
itoa-Digits n = itoa_from-Digits (suc n) n

of_nonempty :
    (max : ℕ) {cs : Bytes} → Leads cs → parse_decimal max cs ≡ parse_digits false 10 max cs 0
unfolding parse_decimal
of_nonempty max (leads c cs h k) = refl

-- `strconv.ParseUint(strconv.Itoa(n), 10, bits)`
pub parse_decimal-itoa : (max n : ℕ) → n ≤ max → parse_decimal max (itoa n) ≡ some n
unfolding itoa itoa_from parse_decimal
parse_decimal-itoa max zero k = one_digit false max 0 0 (omega arith) k
parse_decimal-itoa max (suc n) k =
    of_nonempty max (itoa-Leads (suc n) (omega arith)) ∙ parse_digits-itoa false max (suc n) k

abbrev pub ten_to : ℕ → ℕ
ten_to zero = 1
ten_to (suc k) = 10 * ten_to k

length-itoa_from : (k fuel n : ℕ) → n < ten_to (suc k) → length (itoa_from fuel n) ≤ suc k
length-itoa_from k zero n h = unfold itoa_from in omega arith
length-itoa_from zero (suc fuel) n h = rw (itoa_from_small fuel n (omega (arith, h))) (omega arith)
length-itoa_from (suc k) (suc fuel) n h = elim (small_or_large n) [
  | inl small ↦ rw (itoa_from_small fuel n small) (omega arith)
  | inr more ↦
      let e = length-append (itoa_from fuel (n / 10)) ((b'0' + n % 10) ∷ []) in
      let rec = length-itoa_from k fuel (n / 10) (omega arith) in
      rw (itoa_from_large fuel n more) (omega (arith, e, rec))
]

-- A number below a power of ten has at most so many digits.
pub length-itoa : (k n : ℕ) → n < ten_to (suc k) → length (itoa n) ≤ suc k
unfolding itoa
length-itoa k n h = length-itoa_from k (suc n) n h
