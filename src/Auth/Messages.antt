-- ===== src/Auth/Messages.antt =====
-- src/internal/mactelnet/auth.go: the two client messages of the login and their digests. The hash
-- functions are those of Go's crypto packages, known here by the lengths of their results.
use mactelnet_proxy.Base.{
  ℕ, ◌+◌, ◌≡◌, ◌==◌, if◌then◌else◌, [], ◌∷◌, ◌++◌, Bytes, le16, Result, ok, err, ◌>>=◌, length,
  take, drop,
}
use mactelnet_proxy.Wire.Header.{
  CpType, WireError, cp_type_begin_auth, cp_type_pass_salt, cp_type_password, cp_type_username,
  cp_type_term_type, cp_type_term_width, cp_type_term_height,
}
use mactelnet_proxy.Wire.Control.{encode_control}

pub record Hashes : Type 0 where
  pub md5 : Bytes → Bytes
  pub sha256 : Bytes → Bytes
  pub length-md5 : (b : Bytes) → length (md5 b) ≡ 16
  pub length-sha256 : (b : Bytes) → length (sha256 b) ≡ 32

pub data AuthMode : Type 0 where
  mode_md5 mode_ecsrp : AuthMode

abbrev pub md5_salt_len : ℕ
md5_salt_len = 16

abbrev pub ecsrp_salt_len : ℕ
ecsrp_salt_len = 49

abbrev pub ecsrp_pubkey_len : ℕ
ecsrp_pubkey_len = 33

-- `detectAuthMode`; the error carries the length.
unfoldable pub detect_auth_mode : Bytes → Result ℕ AuthMode
detect_auth_mode body =
    if length body == md5_salt_len
    then ok mode_md5
    else if length body == ecsrp_salt_len
    then ok mode_ecsrp
    else err (length body)

-- `computeMD5Response`: `copy(out[1:], sum)` into an array of 17 bytes.
unfoldable pub compute_md5_response : Hashes → Bytes → Bytes → Bytes
compute_md5_response hs password salt = 0 ∷ take 16 (hs.md5 (0 ∷ (password ++ salt)))

-- `mtweiID`; `copy` into an array of 32 bytes.
unfoldable pub mtwei_id : Hashes → Bytes → Bytes → Bytes → Bytes
mtwei_id hs username password salt =
    take 32 (hs.sha256 (salt ++ hs.sha256 (username ++ (b':' ∷ password))))

-- `encodeControl(buf[n:], …)` and `n += m`: the slice is written through to the buffer.
unfoldable pub encode_next : ℕ × Bytes → CpType → Bytes → Result WireError (ℕ × Bytes)
encode_next (n, buf) ct body = do
  (m, rest) ← encode_control (drop n buf) ct body
  ok (n + m, take n buf ++ rest)

abbrev pub pass_salt_body : Bytes → Bytes → Bytes
pass_salt_body username client_pub = username ++ (0 ∷ client_pub)

-- `buildAuthInit`
unfoldable pub build_auth_init : Bytes → Bytes → Bytes → Result WireError (ℕ × Bytes)
build_auth_init buf username client_pub = do
  s ← encode_control buf cp_type_begin_auth []
  encode_next s cp_type_pass_salt (pass_salt_body username client_pub)

-- `buildAuthFinish`
unfoldable pub build_auth_finish :
    Bytes → Bytes → Bytes → Bytes → ℕ → ℕ → Result WireError (ℕ × Bytes)
build_auth_finish buf response username term_type cols rows = do
  s ← encode_control buf cp_type_password response
  s ← encode_next s cp_type_username username
  s ← encode_next s cp_type_term_type term_type
  s ← encode_next s cp_type_term_width (le16 cols)
  encode_next s cp_type_term_height (le16 rows)
