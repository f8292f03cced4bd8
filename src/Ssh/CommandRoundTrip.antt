-- ===== src/Ssh/CommandRoundTrip.antt =====
-- What splitCmd of src/internal/sshserver/exec.go returns for words, quoted or not, between spaces.
use mactelnet_proxy.Base.{
  ℕ, ◌≡◌, ◌≢◌, refl, sym, ◌∙◌, ap, arith, true, false, List, [], ◌∷◌, ◌++◌, append_assoc,
  append-nil, Bytes, All, ok, err, map,
}
use mactelnet_proxy.Text.Strings.{is_space}
use mactelnet_proxy.Ssh.Command.{
  Split, is_quote, split_rune, split_runes, split_end, split_cmd, unclosed_quote,
}

-- A bare word, or one between two quotes of a kind.
pub data Word : Type 0 where
  bare : ℕ → Bytes → Word
  quoted : ℕ → Bytes → Word

abbrev pub text : Word → Bytes
text (bare r rs) = r ∷ rs
text (quoted q rs) = rs

abbrev pub word_bytes : Word → Bytes
word_bytes (bare r rs) = r ∷ rs
word_bytes (quoted q rs) = q ∷ (rs ++ q ∷ [])

abbrev pub IsBare : ℕ → Type 0
IsBare r = (is_quote r ≡ false) × (is_space r ≡ false)

-- A bare word has no quotes and no spaces; a quoted one no quote of its own kind.
abbrev pub IsWord : Word → Type 0
IsWord (bare r rs) = IsBare r × All IsBare rs
IsWord (quoted q rs) = (is_quote q ≡ true) × All (λ r. r ≢ q) rs

abbrev between : List Bytes → Split
between args = record { args = args; cur = []; quote_ch = 0; has_content = false }

abbrev after_word : List Bytes → Bytes → Split
after_word args cur = record { args = args; cur = cur; quote_ch = 0; has_content = true }

abbrev in_quotes : List Bytes → Bytes → ℕ → Split
in_quotes args cur q = record { args = args; cur = cur; quote_ch = q; has_content = true }

abbrev pub IsSpace : ℕ → Type 0
IsSpace r = is_space r ≡ true

space_no_quote : (r : ℕ) → is_space r ≡ true → is_quote r ≡ false
unfolding is_space is_quote
space_no_quote r h = ground arith

step_space : (r : ℕ) (args : List Bytes) → IsSpace r → split_rune r (between args) ≡ between args
unfolding split_rune
step_space r args h = ground (arith, space_no_quote r h)

step_end :
    (r : ℕ) (args : List Bytes) (cur : Bytes)
    → IsSpace r
    → split_rune r (after_word args cur) ≡ between (args ++ cur ∷ [])
unfolding split_rune
step_end r args cur h = ground (arith, space_no_quote r h)

step_first :
    (r : ℕ) (args : List Bytes) → IsBare r → split_rune r (between args) ≡ after_word args (r ∷ [])
unfolding split_rune
step_first r args h = ground arith

step_bare :
    (r : ℕ) (args : List Bytes) (cur : Bytes)
    → IsBare r
    → split_rune r (after_word args cur) ≡ after_word args (cur ++ r ∷ [])
unfolding split_rune
step_bare r args cur h = ground arith

step_open :
    (q : ℕ) (args : List Bytes)
    → is_quote q ≡ true
    → split_rune q (between args) ≡ in_quotes args [] q
unfolding split_rune
step_open q args h = ground arith

step_inside :
    (r q : ℕ) (args : List Bytes) (cur : Bytes)
    → q ≢ 0
    → r ≢ q
    → split_rune r (in_quotes args cur q) ≡ in_quotes args (cur ++ r ∷ []) q
unfolding split_rune
step_inside r q args cur z h = ground arith

step_close :
    (q : ℕ) (args : List Bytes) (cur : Bytes)
    → q ≢ 0
    → split_rune q (in_quotes args cur q) ≡ after_word args cur
unfolding split_rune
step_close q args cur z = ground arith

quote-ne-zero : (q : ℕ) → is_quote q ≡ true → q ≢ 0
unfolding is_quote
quote-ne-zero q h = ground arith

skip_spaces :
    (sep rest : Bytes) (args : List Bytes)
    → All IsSpace sep
    → split_runes (sep ++ rest) (between args) ≡ split_runes rest (between args)
unfolding split_runes
skip_spaces [] rest args h = refl
skip_spaces (r ∷ sep) rest args h =
    rw (step_space r args h.0, split_runes) (skip_spaces sep rest args h.1)

run_bare :
    (rs rest : Bytes) (args : List Bytes) (cur : Bytes)
    → All IsBare rs
    → split_runes (rs ++ rest) (after_word args cur)
      ≡ split_runes rest (after_word args (cur ++ rs))
unfolding split_runes
run_bare [] rest args cur h = rw append-nil
run_bare (r ∷ rs) rest args cur h =
    rw (step_bare r args cur h.0, split_runes)
      (run_bare rs rest args (cur ++ r ∷ []) h.1 ∙ rw append_assoc)

run_inside :
    (rs rest : Bytes) (args : List Bytes) (cur : Bytes) (q : ℕ)
    → q ≢ 0
    → All (λ r. r ≢ q) rs
    → split_runes (rs ++ rest) (in_quotes args cur q)
      ≡ split_runes rest (in_quotes args (cur ++ rs) q)
unfolding split_runes
run_inside [] rest args cur q z h = rw append-nil
run_inside (r ∷ rs) rest args cur q z h =
    rw (step_inside r q args cur z h.0, split_runes)
      (run_inside rs rest args (cur ++ r ∷ []) q z h.1 ∙ rw append_assoc)

run_word :
    (w : Word) (rest : Bytes) (args : List Bytes)
    → IsWord w
    → split_runes (word_bytes w ++ rest) (between args)
      ≡ split_runes rest (after_word args (text w))
unfolding split_runes
run_word (bare r rs) rest args h =
    rw (step_first r args h.0, split_runes) (run_bare rs rest args (r ∷ []) h.1)
run_word (quoted q rs) rest args h =
    let z = quote-ne-zero q h.0 in
    rw (step_open q args h.0, append_assoc, split_runes)
      (run_inside rs (q ∷ rest) args [] q z h.1 ∙ rw (step_close q args rs z, split_runes))

end_word :
    (r : ℕ) (rest : Bytes) (args : List Bytes) (cur : Bytes)
    → IsSpace r
    → split_runes (r ∷ rest) (after_word args cur) ≡ split_runes rest (between (args ++ cur ∷ []))
unfolding split_runes
end_word r rest args cur h = rw (step_end r args cur h, split_runes) refl

-- A word with the space behind it, and any more spaces.
pub record Spaced : Type 0 where
  pub word : Word
  pub space : ℕ
  pub more : Bytes

abbrev pub IsSpaced : Spaced → Type 0
IsSpaced w = IsWord w.word × IsSpace w.space × All IsSpace w.more

abbrev pub line : List Spaced → Bytes → Bytes
line [] rest = rest
line (w ∷ ws) rest = word_bytes w.word ++ (w.space ∷ (w.more ++ line ws rest))

abbrev pub texts : List Spaced → List Bytes
texts = map (λ w. text w.word)

run_line :
    (ws : List Spaced) (rest : Bytes) (args : List Bytes)
    → All IsSpaced ws
    → split_runes (line ws rest) (between args) ≡ split_runes rest (between (args ++ texts ws))
run_line [] rest args h = rw append-nil
run_line (w ∷ ws) rest args h =
    run_word w.word (w.space ∷ (w.more ++ line ws rest)) args h.0.0
    ∙ end_word w.space (w.more ++ line ws rest) args (text w.word) h.0.1
    ∙ skip_spaces w.more (line ws rest) (args ++ text w.word ∷ []) h.0.2
    ∙ run_line ws rest (args ++ text w.word ∷ []) h.1
    ∙ rw append_assoc

-- A command of bare and quoted words between runs of spaces, the last one at its end, splits into
-- their texts: quotes group, and a quote of the other kind, like a space, passes through.
pub split_cmd-line :
    (lead : Bytes) (ws : List Spaced) (w : Word)
    → All IsSpace lead
    → All IsSpaced ws
    → IsWord w
    → split_cmd (lead ++ line ws (word_bytes w ++ [])) ≡ ok (texts ws ++ text w ∷ [])
unfolding split_cmd split_end
split_cmd-line lead ws w l h k =
    let runs =
      skip_spaces lead (line ws (word_bytes w ++ [])) [] l
      ∙ run_line ws (word_bytes w ++ []) [] h
      ∙ run_word w [] (texts ws) k in
    rw runs (unfold split_runes in refl)

run_open :
    (q : ℕ) (rs : Bytes) (args : List Bytes)
    → is_quote q ≡ true
    → All (λ r. r ≢ q) rs
    → split_runes (q ∷ rs) (between args) ≡ in_quotes args rs q
unfolding split_runes
run_open q rs args h free =
    let tail = run_inside rs [] args [] q (quote-ne-zero q h) free in
    rw (step_open q args h, split_runes)
      (ap (λ bs. split_runes bs (in_quotes args [] q)) (sym (append-nil rs)) ∙ tail)

-- A quote that opens after such words and is not closed makes the command an error.
pub split_cmd_unclosed :
    (lead : Bytes) (ws : List Spaced) (q : ℕ) (rs : Bytes)
    → All IsSpace lead
    → All IsSpaced ws
    → is_quote q ≡ true
    → All (λ r. r ≢ q) rs
    → split_cmd (lead ++ line ws (q ∷ rs)) ≡ err unclosed_quote
unfolding split_cmd split_end
split_cmd_unclosed lead ws q rs l h k free =
    let z = quote-ne-zero q k in
    let runs =
      skip_spaces lead (line ws (q ∷ rs)) [] l
      ∙ run_line ws (q ∷ rs) [] h
      ∙ run_open q rs (texts ws) k free in
    rw runs (ground (arith, z))
