-- ===== src/Ssh/ServerLaws.antt =====
-- Booting again, reloading and logging in: src/internal/sshserver/server.go and keys.go.
use mactelnet_proxy.Base.{
  ◌≡◌, refl, sym, ◌∙◌, ap, arith, inl, inr, List, [], Bytes, Option, none, some, ok, Option-cases,
}
use mactelnet_proxy.Text.Strings.{split_lines, is_space}
use mactelnet_proxy.Ssh.Keys.{SshKeys, is_skipped, keys_of_lines}
use mactelnet_proxy.Ssh.Files.{
  FileSys, ReadResult, content, missing, unreadable, IsLawful, FileError, HostKeys, IsReadable,
  stub, parse_failed, signer_failed, or_error, create, load_read, load_authorized_keys,
  generate_host_key, load_or_create_host_key, signed, no_keys,
}

-- A file that was created is read back.
created-read :
    (fs : FileSys) (law : IsLawful fs) (s : fs.State) (path b : Bytes) {s' : fs.State}
    → create fs s path b ≡ (none, s')
    → fs.read_file s' path ≡ content b
unfolding create
created-read fs law s path b {s'} h = elim (Option-cases (fs.mkdir_all s (fs.dir path))) [
  | inl e ↦ absurd (ground (arith, h, e))
  | inr (t, e) ↦ elim (Option-cases (fs.write_file t path b)) [
    | inl f ↦ absurd (ground (arith, h, e, f))
    | inr (u, f) ↦
        let same : u ≡ s' = ground (arith, h, e, f) in law.read-write t path b (f ∙ ap some same)
  ]
]

-- Nobody is in the stub.
pub keys_of_lines-stub : (ssh : SshKeys) → keys_of_lines ssh (split_lines stub) ≡ []
unfolding keys_of_lines split_lines is_skipped is_space
keys_of_lines-stub ssh = refl

module _ (fs : FileSys) (law : IsLawful fs) (ssh : SshKeys) where
  loaded_from :
      (s : fs.State) (path b : Bytes)
      → fs.read_file s path ≡ content b
      → load_authorized_keys fs ssh s path ≡ (ok (keys_of_lines ssh (split_lines b)), s)
  unfolding load_authorized_keys load_read
  loaded_from s path b h = rw (h, load_authorized_keys) refl

  loaded_created :
      (s : fs.State) (path : Bytes)
      → fs.read_file s path ≡ missing
      → load_authorized_keys fs ssh s path ≡ no_keys fs ssh (create fs s path stub)
  unfolding load_authorized_keys load_read
  loaded_created s path h = rw (h, load_authorized_keys) refl

  after_creation :
      (s s' : fs.State) (path : Bytes) (ks : List ssh.PublicKey) (r : Option FileError × fs.State)
      → create fs s path stub ≡ r
      → no_keys fs ssh r ≡ (ok ks, s')
      → load_authorized_keys fs ssh s' path ≡ (ok ks, s')
  after_creation s s' path ks (some x, t) made h = absurd cc
  after_creation s s' path ks (none, t) made h =
      let same : t ≡ s' = cc in
      let empty : Path (List ssh.PublicKey) [] ks = cc in
      rw (← same, ← empty)
        (loaded_from t path stub (created-read fs law s path stub made)
          ∙ ap (λ k. (ok k, t)) (keys_of_lines-stub ssh))

  -- A load that succeeded is repeated by the next one, also where it had to make the file: the stub that
  -- it then wrote lets nobody in, and is left as it is.
  pub load_authorized_keys_again :
      (s s' : fs.State) (path : Bytes) (ks : List ssh.PublicKey)
      → load_authorized_keys fs ssh s path ≡ (ok ks, s')
      → load_authorized_keys fs ssh s' path ≡ (ok ks, s')
  unfolding load_authorized_keys load_read
  load_authorized_keys_again s s' path ks h = go (fs.read_file s path) refl
    where
      go :
          (r : ReadResult)
          → fs.read_file s path ≡ r
          → load_authorized_keys fs ssh s' path ≡ (ok ks, s')
      go missing e = after_creation s s' path ks _ refl (sym (loaded_created s path e) ∙ h)
      go unreadable e = absurd (ground (arith, h, e))
      go (content b) e =
          let same : s ≡ s' = ap (λ r. r.1) (sym (loaded_from s path b e) ∙ h) in
          rw (← same) (h ∙ ap (λ t. (ok ks, t)) (sym same))

module _ (fs : FileSys) (law : IsLawful fs) (hk : HostKeys) (readable : IsReadable hk) where
  parsed_from :
      (s : fs.State) (path b : Bytes)
      → fs.read_file s path ≡ content b
      → load_or_create_host_key fs hk s path ≡ (or_error parse_failed (hk.parse_private b), s)
  unfolding load_or_create_host_key
  parsed_from s path b h = rw (h, load_or_create_host_key) refl

  after_generation :
      (s s' : fs.State) (path text : Bytes) (priv : hk.Priv) (signer : hk.Signer)
      (r : Option FileError × fs.State)
      → hk.pem priv ≡ some text
      → create fs s path text ≡ r
      → signed fs hk priv r ≡ (ok signer, s')
      → load_or_create_host_key fs hk s' path ≡ (ok signer, s')
  after_generation s s' path text priv signer (some x, t) p made h = absurd cc
  after_generation s s' path text priv signer (none, t) p made h =
      let same : t ≡ s' = ap (λ r. r.1) h in
      let key : or_error signer_failed (hk.new_signer priv) ≡ ok signer = ap (λ r. r.0) h in
      rw (← same) (
        parsed_from t path text (created-read fs law s path text made)
        ∙ ap (λ k. (k, t))
            (ap (or_error parse_failed) (readable.parse_private-pem priv p)
              ∙ other_error (hk.new_signer priv) key))
    where
      other_error :
          (o : Option hk.Signer)
          → or_error signer_failed o ≡ ok signer
          → or_error parse_failed o ≡ ok signer
      other_error none k = absurd cc
      other_error (some x) k = k

  generate_again :
      (s s' : fs.State) (path : Bytes) (signer : hk.Signer)
      → generate_host_key fs hk s path ≡ (ok signer, s')
      → load_or_create_host_key fs hk s' path ≡ (ok signer, s')
  unfolding generate_host_key
  generate_again s s' path signer h = elim (Option-cases hk.generated) [
    | inl e ↦ absurd (ground (arith, h, e))
    | inr (priv, e) ↦ elim (Option-cases (hk.pem priv)) [
      | inl f ↦ absurd (ground (arith, h, e, f))
      | inr (text, f) ↦
          after_generation s s' path text priv signer _ f refl
            (sym (rw (e, generate_host_key) (rw f refl)) ∙ h)
    ]
  ]

  -- Where the host key was loaded or made, every later start loads the same key and changes nothing, if
  -- a key that is written as PEM is parsed to its signer.
  pub load_or_create_host_key_again :
      (s s' : fs.State) (path : Bytes) (signer : hk.Signer)
      → load_or_create_host_key fs hk s path ≡ (ok signer, s')
      → load_or_create_host_key fs hk s' path ≡ (ok signer, s')
  unfolding load_or_create_host_key
  load_or_create_host_key_again s s' path signer h = go (fs.read_file s path) refl
    where
      go :
          (r : ReadResult)
          → fs.read_file s path ≡ r
          → load_or_create_host_key fs hk s' path ≡ (ok signer, s')
      go missing e =
          generate_again s s' path signer (sym (rw (e, load_or_create_host_key) refl) ∙ h)
      go unreadable e = absurd (ground (arith, h, e))
      go (content b) e =
          let same : s ≡ s' = ap (λ r. r.1) (sym (parsed_from s path b e) ∙ h) in
          rw (← same) (h ∙ ap (λ t. (ok signer, t)) (sym same))
