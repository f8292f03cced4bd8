-- ===== src/Ssh/Keys.antt =====
-- src/internal/sshserver/keys.go and server.go: the authorized keys. Parsing a key and its wire form
-- are golang.org/x/crypto/ssh's.
use mactelnet_proxy.Base.{
  Bool, true, false, ◌||◌, if◌then◌else◌, ◌==◌, List, [], ◌∷◌, Bytes, equal, Option, none, some,
}
use mactelnet_proxy.Text.Strings.{is_space}

-- `ssh.ParseAuthorizedKey` and `PublicKey.Marshal`.
pub record SshKeys : Type 1 where
  pub PublicKey : Type 0
  pub parse_key : Bytes → Option PublicKey
  pub marshal : PublicKey → Bytes

-- `strings.TrimSpace(line)` is empty or begins with '#', decided at the first byte that is no space.
unfoldable pub is_skipped : Bytes → Bool
is_skipped [] = true
is_skipped (c ∷ cs) = let rest = is_skipped cs in if is_space c then rest else c == b'#'

module _ (ssh : SshKeys) where
  open ssh use {PublicKey, parse_key, marshal}

  unfoldable pub keys_of_lines : List Bytes → List PublicKey
  keys_of_lines [] = []
  keys_of_lines (line ∷ lines) =
      let rest = keys_of_lines lines in
      if is_skipped line then rest else elim (parse_key line) [ none ↦ rest | some k ↦ k ∷ rest ]

  -- `keyMatch`
  unfoldable pub key_match : PublicKey → List PublicKey → Bool
  key_match offered [] = false
  key_match offered (k ∷ keys) = equal (marshal k) (marshal offered) || key_match offered keys
