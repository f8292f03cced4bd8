-- ===== src/Ssh/KeysLaws.antt =====
-- Who may log in: the public-key callback of src/internal/sshserver/server.go over the lines of
-- src/internal/sshserver/keys.go.
use mactelnet_proxy.Base.{
  ◌≡◌, ◌↔◌, ◌⊎◌, inl, inr, refl, sym, ◌∙◌, arith, Bool, true, false, List, [], ◌∷◌, Bytes, equal,
  equal_refl, equal_sound, some, Bool-cases, Option-cases,
}
use mactelnet_proxy.Ssh.Keys.{SshKeys, is_skipped, keys_of_lines, key_match}

module _ (ssh : SshKeys) where
  -- A line that is neither blank nor a comment, and that parses to a key of the offered wire form.
  abbrev pub Lists : ssh.PublicKey → Bytes → Type 0
  Lists offered line =
      (is_skipped line ≡ false)
      × (k : ssh.PublicKey) × (ssh.parse_key line ≡ some k)
      × (ssh.marshal k ≡ ssh.marshal offered)

  abbrev pub Some : ssh.PublicKey → List Bytes → Type 0
  Some offered [] = ⊥
  Some offered (line ∷ lines) = Lists offered line ⊎ Some offered lines

  abbrev pub matches : ssh.PublicKey → List Bytes → Bool
  matches offered lines = key_match ssh offered (keys_of_lines ssh lines)

  same_key :
      {line : Bytes} (k offered : ssh.PublicKey)
      → ssh.parse_key line ≡ some k
      → Lists offered line
      → ssh.marshal k ≡ ssh.marshal offered
  same_key k offered good h = let found = h.2 in let form = h.3 in cc

  -- The first line decides, or it is of no account.
  matches_line :
      (offered : ssh.PublicKey) (line : Bytes) (lines : List Bytes)
      → ((matches offered (line ∷ lines) ≡ true) × Lists offered line)
        ⊎ ((matches offered (line ∷ lines) ≡ matches offered lines) × ¬ Lists offered line)
  unfolding key_match keys_of_lines
  matches_line offered line lines = elim (Bool-cases (is_skipped line)) [
    | inl skip ↦ inr (rw (skip, keys_of_lines) refl, λ h. ground (arith, skip, h.0))
    | inr whole ↦ elim (Option-cases (ssh.parse_key line)) [
      | inl bad ↦ inr (rw (whole, bad, keys_of_lines) refl, λ h. ground (arith, bad, h.2))
      | inr (k, good) ↦ elim (Bool-cases (equal (ssh.marshal k) (ssh.marshal offered))) [
        | inl same ↦ inl (
          rw (whole, good, keys_of_lines) (rw (same, key_match) refl),
          (whole, k, good, equal_sound _ _ same),
        )
        | inr other ↦ inr (
          rw (whole, good, keys_of_lines) (rw (other, key_match) refl),
          λ h.
              let e : ssh.marshal k ≡ ssh.marshal offered = same_key k offered good h in
              let r = equal_refl (ssh.marshal offered) in absurd cc,
        )
      ]
    ]
  ]

no_key : (ssh : SshKeys) (offered : ssh.PublicKey) → matches ssh offered [] ≡ true → ⊥
unfolding key_match keys_of_lines
no_key ssh offered h = cc

-- A key is accepted exactly if some line of the file that is neither blank nor a comment parses to a
-- key with the same wire form; lines that do not parse neither add a key nor hide one.
pub key_match-keys_of_lines :
    (ssh : SshKeys) (offered : ssh.PublicKey) (lines : List Bytes)
    → (key_match ssh offered (keys_of_lines ssh lines) ≡ true) ↔ Some ssh offered lines
key_match-keys_of_lines ssh offered [] = (λ h. absurd (no_key ssh offered h), λ h. absurd h)
key_match-keys_of_lines ssh offered (line ∷ lines) =
    let (to, from) = key_match-keys_of_lines ssh offered lines in
    elim (matches_line ssh offered line lines) [
      | inl (e, l) ↦ (λ h. inl l, λ h. e)
      | inr (e, n) ↦
          (λ h. inr (to (sym e ∙ h)), λ h. elim h [ inl l ↦ absurd (n l) | inr k ↦ e ∙ from k ])
    ]
