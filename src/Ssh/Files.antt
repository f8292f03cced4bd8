-- ===== src/Ssh/Files.antt =====
-- src/internal/sshserver/keys.go: the two files that the server reads, and makes where they are missing.
-- The file system is an interface; keys and their PEM form are x/crypto/ssh's and crypto/ed25519's.
use mactelnet_proxy.Base.{◌≡◌, List, [], ◌∷◌, ◌++◌, Bytes, Option, none, some, Result, ok, err}
use mactelnet_proxy.Text.Strings.{codes, split_lines}
use mactelnet_proxy.Ssh.Keys.{SshKeys, keys_of_lines}

-- What `os.ReadFile` yields.
pub data ReadResult : Type 0 where
  content : Bytes → ReadResult
  missing unreadable : ReadResult

-- `os.ReadFile`, `os.MkdirAll` and `os.WriteFile` on a state, and `filepath.Dir`.
pub record FileSys : Type 1 where
  pub State : Type 0
  pub dir : Bytes → Bytes
  pub read_file : State → Bytes → ReadResult
  pub mkdir_all : State → Bytes → Option State
  pub write_file : State → Bytes → Bytes → Option State

-- What was written is what is read.
pub record IsLawful (fs : FileSys) : Type 0 where
  pub read-write :
      (s : fs.State) (path b : Bytes) {s' : fs.State}
      → fs.write_file s path b ≡ some s'
      → fs.read_file s' path ≡ content b

pub data FileError : Type 0 where
  read_failed mkdir_failed write_failed : FileError
  parse_failed generate_failed marshal_failed signer_failed : FileError

-- `ed25519.GenerateKey`, the PEM text of `ssh.MarshalPrivateKey`, `ssh.ParsePrivateKey` and
-- `ssh.NewSignerFromKey`.
pub record HostKeys : Type 1 where
  pub Priv : Type 0
  pub Signer : Type 0
  pub generated : Option Priv
  pub pem : Priv → Option Bytes
  pub parse_private : Bytes → Option Signer
  pub new_signer : Priv → Option Signer

-- A key that was written as PEM is parsed to its signer.
pub record IsReadable (hk : HostKeys) : Type 0 where
  pub parse_private-pem :
      (k : hk.Priv) {text : Bytes} → hk.pem k ≡ some text → hk.parse_private text ≡ hk.new_signer k

-- The stub of a file of authorized keys.
abbrev pub stub : Bytes
stub =
    codes "# mactelnet-proxy authorized_keys"
    ++ (10 ∷ (codes "# Append OpenSSH public keys (one per line) to grant access." ++ 10 ∷ []))

abbrev pub or_error {ℓ} : {A : Type ℓ} → FileError → Option A → Result FileError A
or_error e none = err e
or_error e (some a) = ok a

module _ (fs : FileSys) where
  open fs use {State, dir, read_file, mkdir_all, write_file}

  -- A file in a directory that is made before it. The state is the one after the last call that
  -- succeeded.
  unfoldable pub create : State → Bytes → Bytes → Option FileError × State
  create s path b = elim (mkdir_all s (dir path)) [
    | none ↦ (some mkdir_failed, s)
    | some s' ↦ elim (write_file s' path b) [
      | none ↦ (some write_failed, s')
      | some s'' ↦ (none, s'')
    ]
  ]

  module _ (ssh : SshKeys) where
    open ssh use {PublicKey}

    abbrev pub no_keys : Option FileError × State → Result FileError (List PublicKey) × State
    no_keys (none, s) = (ok [], s)
    no_keys (some e, s) = (err e, s)

    -- `loadAuthorizedKeys`, from what was read on.
    unfoldable pub load_read :
        State → Bytes → ReadResult → Result FileError (List PublicKey) × State
    load_read s path missing = no_keys (create s path stub)
    load_read s path unreadable = (err read_failed, s)
    load_read s path (content b) = (ok (keys_of_lines ssh (split_lines b)), s)

    -- `loadAuthorizedKeys`
    unfoldable pub load_authorized_keys : State → Bytes → Result FileError (List PublicKey) × State
    load_authorized_keys s path = load_read s path (read_file s path)

  module _ (hk : HostKeys) where
    open hk use {Priv, Signer, generated, pem, parse_private, new_signer}

    abbrev pub signed : Priv → Option FileError × State → Result FileError Signer × State
    signed priv (none, s) = (or_error signer_failed (new_signer priv), s)
    signed priv (some e, s) = (err e, s)

    -- `generateHostKey`
    unfoldable pub generate_host_key : State → Bytes → Result FileError Signer × State
    generate_host_key s path = elim generated [
      | none ↦ (err generate_failed, s)
      | some priv ↦ elim (pem priv) [
        | none ↦ (err marshal_failed, s)
        | some text ↦ signed priv (create s path text)
      ]
    ]

    -- `loadOrCreateHostKey`
    unfoldable pub load_or_create_host_key : State → Bytes → Result FileError Signer × State
    load_or_create_host_key s path = elim (read_file s path) [
      | missing ↦ generate_host_key s path
      | unreadable ↦ (err read_failed, s)
      | content b ↦ (or_error parse_failed (parse_private b), s)
    ]
