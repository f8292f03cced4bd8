-- ===== src/Auth/Sequence.antt =====
-- Records written one behind the other, as src/internal/mactelnet/auth.go and session.go do.
use mactelnet_proxy.Base.{
  ℕ, ◌+◌, ◌≤◌, ◌<◌, ◌≡◌, ◌≢◌, refl, ap, sym, ltb→lt, ◌∙◌, arith, ltb, List, [], ◌∷◌, ◌++◌, Bytes,
  Result, ok, err, ◌>>=◌, length, take, drop, All, append_assoc, length-append, take-append_le,
  drop-append_le, drop-drop, length-drop, Bool-cases, Result-cases, inl, inr,
}
use Prim.Native.Nat.add
use mathlib.Core.Path.{ap₂}
use mactelnet_proxy.Wire.Header.{WireError, cp_type_plain_data, short_control}
use mactelnet_proxy.Wire.Control.{ControlRecord, encode_control}
use mactelnet_proxy.Wire.ControlRoundTrip.{record_bytes, encode_control_bytes}
use mactelnet_proxy.Wire.Records.{wire}
use mactelnet_proxy.Auth.Messages.{encode_next}

abbrev pub encode_all : ℕ × Bytes → List ControlRecord → Result WireError (ℕ × Bytes)
encode_all s [] = ok s
encode_all s (r ∷ rs) = encode_next s r.cp_type r.body >>= λ t. encode_all t rs

abbrev pub IsFramed : ControlRecord → Type 0
IsFramed r = r.cp_type ≢ cp_type_plain_data

length-record_bytes : (r : ControlRecord) → length (record_bytes r) ≡ 9 + length r.body
length-record_bytes r = omega arith

encode_control_short :
    (buf : Bytes) (r : ControlRecord)
    → IsFramed r
    → length buf < 9 + length r.body
    → encode_control buf r.cp_type r.body ≡ err short_control
unfolding encode_control
encode_control_short buf r ne h = ground arith

encode_next_bytes :
    (xs ys : Bytes) (r : ControlRecord)
    → IsFramed r
    → 9 + length r.body ≤ length ys
    → encode_next (length xs, xs ++ ys) r.cp_type r.body
      ≡ ok (length (xs ++ record_bytes r), (xs ++ record_bytes r) ++ drop (9 + length r.body) ys)
unfolding encode_next
encode_next_bytes xs ys r ne h =
    rw
      (
        length-append xs (record_bytes r),
        append_assoc xs (record_bytes r) (drop (9 + length r.body) ys),
        drop-append_le (length xs) xs ys refl,
        take-append_le (length xs) xs ys refl,
        encode_control_bytes ys r ne h,
      )
      (ap (λ n. ok (n, xs ++ (record_bytes r ++ drop (9 + length r.body) ys))) (omega arith))

encode_next_short :
    (xs ys : Bytes) (r : ControlRecord)
    → IsFramed r
    → length ys < 9 + length r.body
    → encode_next (length xs, xs ++ ys) r.cp_type r.body ≡ err short_control
unfolding encode_next
encode_next_short xs ys r ne h =
    rw (drop-append_le (length xs) xs ys refl, encode_control_short ys r ne h)

-- Where all the records fit behind what stands in the buffer, they are written there in order.
pub encode_all_bytes :
    (rs : List ControlRecord) (xs ys : Bytes)
    → All IsFramed rs
    → length (wire rs) ≤ length ys
    → encode_all (length xs, xs ++ ys) rs
      ≡ ok (length xs + length (wire rs), xs ++ (wire rs ++ drop (length (wire rs)) ys))
encode_all_bytes [] xs ys f h = ap (λ n. ok (n, xs ++ ys)) (omega arith)
encode_all_bytes (r ∷ rs) xs ys f h =
    let xs' = xs ++ record_bytes r in
    let ys' = drop (9 + length r.body) ys in
    let total = length-append (record_bytes r) (wire rs) in
    let room = length-drop (9 + length r.body) ys in
    let skip : 9 + length r.body + length (wire rs) ≡ length (wire (r ∷ rs)) =
      omega (arith, total) in
    rw (encode_next_bytes xs ys r f.0 (omega (arith, total))) (
      encode_all_bytes rs xs' ys' f.1 (omega (arith, total, room))
      ∙ ap₂ (λ n b. ok (n, b)) (omega (arith, total, length-append xs (record_bytes r)))
          (append_assoc xs (record_bytes r) _
            ∙ ap (◌++◌ xs) (
                ap (λ t. record_bytes r ++ (wire rs ++ t))
                  (drop-drop (9 + length r.body) (length (wire rs)) ys ∙ ap (λ n. drop n ys) skip)
                ∙ sym (append_assoc (record_bytes r) (wire rs) _))))

-- Where they do not, the error is that of the first one that does not fit.
pub encode_all_short :
    (rs : List ControlRecord) (xs ys : Bytes)
    → All IsFramed rs
    → length ys < length (wire rs)
    → encode_all (length xs, xs ++ ys) rs ≡ err short_control
encode_all_short [] xs ys f h = absurd (omega arith)
encode_all_short (r ∷ rs) xs ys f h =
    let total = length-append (record_bytes r) (wire rs) in
    elim (Bool-cases (ltb (length ys) (9 + length r.body))) [
      | inl short ↦ rw (encode_next_short xs ys r f.0 (ltb→lt _ _ short))
      | inr fits ↦
          let fit : 9 + length r.body ≤ length ys = ground (arith, fits) in
          rw (encode_next_bytes xs ys r f.0 fit) (
            encode_all_short rs (xs ++ record_bytes r) (drop (9 + length r.body) ys) f.1
              (omega (arith, total, length-drop (9 + length r.body) ys)))
    ]

-- The outcome of writing records into an empty buffer: the error exactly if they do not fit, and
-- otherwise a prefix that iterateControl reads as these records and nothing more.
pub record Writes (buf : Bytes) (rs : List ControlRecord) (res : Result WireError (ℕ × Bytes))
    : Type 0 where
  pub fits :
      length (wire rs) ≤ length buf
      → (out : ℕ × Bytes) × (res ≡ ok out)
        × (out.0 ≡ length (wire rs))
        × (take out.0 out.1 ≡ wire rs)
        × (drop out.0 out.1 ≡ drop out.0 buf)
  pub short : length buf < length (wire rs) → res ≡ err short_control

pub encode_all-Writes :
    (rs : List ControlRecord) (buf : Bytes)
    → All IsFramed rs
    → Writes buf rs (encode_all (0, buf) rs)
encode_all-Writes rs buf f = record {
  fits = λ h.
      let tail = drop (length (wire rs)) buf in
      (
        (0 + length (wire rs), wire rs ++ tail),
        encode_all_bytes rs [] buf f h,
        add.zero _,
        rw add.zero (take-append_le (length (wire rs)) (wire rs) tail refl),
        rw add.zero (drop-append_le (length (wire rs)) (wire rs) tail refl),
      );
  short = λ h. encode_all_short rs [] buf f h;
}

-- Writing at the front of the buffer is writing behind nothing.
pub encode_first :
    (buf : Bytes) (r : ControlRecord)
    → encode_control buf r.cp_type r.body ≡ encode_next (0, buf) r.cp_type r.body
unfolding encode_next
encode_first buf r = elim (Result-cases (encode_control buf r.cp_type r.body)) [
  | inl ((n, out), e) ↦ rw (e, add.zero)
  | inr (x, e) ↦ rw e
]
