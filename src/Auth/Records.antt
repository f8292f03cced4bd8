-- ===== src/Auth/Records.antt =====
-- What the server reads in the client's two messages of src/internal/mactelnet/auth.go.
use mactelnet_proxy.Base.{
  Bool-cases, ltb, ltb→lt, inl, inr, ℕ, ◌≤◌, ◌<◌, ◌≡◌, refl, arith, List, [], ◌∷◌, ◌++◌, Bytes,
  le16, u32_mod, Result, ok, err, length, take, take_all, append-nil, bind-ok, ltb, ltb→lt,
  Bool-cases, inl, inr,
}
use mactelnet_proxy.Wire.Header.{
  WireError, short_control, cp_type_begin_auth, cp_type_pass_salt, cp_type_password,
  cp_type_username, cp_type_term_type, cp_type_term_width, cp_type_term_height,
}
use mactelnet_proxy.Wire.Control.{ControlRecord, records, iterate_control, iterate_from}
use mactelnet_proxy.Wire.Records.{wire, records-wire}
use mactelnet_proxy.Auth.Messages.{
  build_auth_init, build_auth_finish, Hashes, compute_md5_response, mtwei_id,
}
use mactelnet_proxy.Auth.Sequence.{encode_all, encode_first, Writes, encode_all-Writes}

abbrev control : ℕ → Bytes → ControlRecord
control ct body = record { cp_type = ct; body = body }

abbrev pub init_records : Bytes → Bytes → List ControlRecord
init_records username client_pub =
    record { cp_type = cp_type_begin_auth; body = [] }
    ∷ record { cp_type = cp_type_pass_salt; body = username ++ (0 ∷ client_pub) }
    ∷ []

abbrev pub finish_records : Bytes → Bytes → Bytes → ℕ → ℕ → List ControlRecord
finish_records response username term_type cols rows =
    record { cp_type = cp_type_password; body = response }
    ∷ record { cp_type = cp_type_username; body = username }
    ∷ record { cp_type = cp_type_term_type; body = term_type }
    ∷ record { cp_type = cp_type_term_width; body = le16 cols }
    ∷ record { cp_type = cp_type_term_height; body = le16 rows }
    ∷ []

records_whole : (rs : List ControlRecord) → length (wire rs) < u32_mod → records (wire rs) ≡ rs
unfolding records iterate_control iterate_from
records_whole rs h = rw (append-nil, append-nil) at (records-wire rs [] (omega arith))

build_auth_init_all :
    (buf username client_pub : Bytes)
    → build_auth_init buf username client_pub
      ≡ encode_all (0, buf) (init_records username client_pub)
unfolding build_auth_init
build_auth_init_all buf username client_pub =
    rw (encode_first buf (control cp_type_begin_auth [])) (simp bind-ok)

build_auth_finish_all :
    (buf response username term_type : Bytes) (cols rows : ℕ)
    → build_auth_finish buf response username term_type cols rows
      ≡ encode_all (0, buf) (finish_records response username term_type cols rows)
unfolding build_auth_finish
build_auth_finish_all buf response username term_type cols rows =
    rw (encode_first buf (control cp_type_password response)) (simp bind-ok)

-- Either the records fit the buffer, and the message is these records and nothing else, as
-- iterateControl reads them; or they do not, and the error is a short buffer.
pub data Message (buf : Bytes) (rs : List ControlRecord) (res : Result WireError (ℕ × Bytes))
    : Type 0 where
  fits :
      length (wire rs) ≤ length buf
      → (out : Bytes) → res ≡ ok (length (wire rs), out)
      → records (take (length (wire rs)) out) ≡ rs
      → Message buf rs res
  short : length buf < length (wire rs) → res ≡ err short_control → Message buf rs res

Writes-Message :
    (buf : Bytes) (rs : List ControlRecord) (res : Result WireError (ℕ × Bytes))
    → length buf < u32_mod
    → Writes buf rs res
    → Message buf rs res
Writes-Message buf rs res small w = elim (Bool-cases (ltb (length buf) (length (wire rs)))) [
  | inl less ↦ short (ltb→lt _ _ less) (w.short (ltb→lt _ _ less))
  | inr enough ↦
      let room : length (wire rs) ≤ length buf = ground arith in
      let ((n, out), e, k, written, _) = w.fits room in
      fits room out (rw k at e) (rw (← k, written) (records_whole rs (omega arith)))
]

-- The first client message holds BEGINAUTH and PASSSALT with the name, a zero and the key, in this
-- order.
pub build_auth_init-Message :
    (buf username client_pub : Bytes)
    → length buf < u32_mod
    → Message buf (init_records username client_pub) (build_auth_init buf username client_pub)
build_auth_init-Message buf username client_pub small = Writes-Message buf _ _ small (
    rw (build_auth_init_all buf username client_pub)
      (encode_all-Writes (init_records username client_pub) buf (omega arith)))

-- The second one holds PASSWORD, USERNAME, TERM_TYPE and the two little-endian dimensions.
pub build_auth_finish-Message :
    (buf response username term_type : Bytes) (cols rows : ℕ)
    → length buf < u32_mod
    → Message buf
        (finish_records response username term_type cols rows)
        (build_auth_finish buf response username term_type cols rows)
build_auth_finish-Message buf response username term_type cols rows small =
    Writes-Message buf _ _ small (
      rw (build_auth_finish_all buf response username term_type cols rows) (
        encode_all-Writes (finish_records response username term_type cols rows) buf (omega arith)))

taken :
    (buf : Bytes) (rs : List ControlRecord) (res : Result WireError (ℕ × Bytes)) (n : ℕ)
    (out : Bytes)
    → Writes buf rs res
    → res ≡ ok (n, out)
    → take n out ≡ wire rs
taken buf rs res n out w e = elim (Bool-cases (ltb (length buf) (length (wire rs)))) [
  | inl less ↦ absurd cc (w.short (ltb→lt _ _ less), e)
  | inr enough ↦ let (r, e', _, written, _) = w.fits (ground arith) in cc (e, e', written)
]

-- The messages that are sent are their records and nothing else.
pub build_auth_init_taken :
    (buf username client_pub : Bytes) (n : ℕ) (out : Bytes)
    → build_auth_init buf username client_pub ≡ ok (n, out)
    → take n out ≡ wire (init_records username client_pub)
build_auth_init_taken buf username client_pub n out =
    taken buf (init_records username client_pub) _ n out (
      rw (build_auth_init_all buf username client_pub)
        (encode_all-Writes (init_records username client_pub) buf (omega arith)))

pub build_auth_finish_taken :
    (buf response username term_type : Bytes) (cols rows n : ℕ) (out : Bytes)
    → build_auth_finish buf response username term_type cols rows ≡ ok (n, out)
    → take n out ≡ wire (finish_records response username term_type cols rows)
build_auth_finish_taken buf response username term_type cols rows n out =
    taken buf (finish_records response username term_type cols rows) _ n out (
      rw (build_auth_finish_all buf response username term_type cols rows) (
        encode_all-Writes (finish_records response username term_type cols rows) buf (omega arith)))

-- No digest is cut: the legacy response is a zero byte and the 16 bytes of the MD5, and the
-- validator is the 32 bytes of the outer SHA-256.
pub digests_whole :
    (hs : Hashes) (username password salt : Bytes)
    → (compute_md5_response hs password salt ≡ 0 ∷ hs.md5 (0 ∷ (password ++ salt)))
      × (length (compute_md5_response hs password salt) ≡ 17)
      × (mtwei_id hs username password salt
          ≡ hs.sha256 (salt ++ hs.sha256 (username ++ (b':' ∷ password))))
      × (length (mtwei_id hs username password salt) ≡ 32)
unfolding compute_md5_response mtwei_id
digests_whole hs username password salt =
    let m = 0 ∷ (password ++ salt) in
    let i = salt ++ hs.sha256 (username ++ (b':' ∷ password)) in
    rw
      (
        take_all 16 (hs.md5 m) (omega (arith, hs.length-md5 m)),
        take_all 32 (hs.sha256 i) (omega (arith, hs.length-sha256 i)),
      )
      (refl, omega (arith, hs.length-md5 m), refl, hs.length-sha256 i)
