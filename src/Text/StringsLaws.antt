-- ===== src/Text/StringsLaws.antt =====
-- Lines, fields and trimmed texts, as the code's use of Go's strings package needs them.
use mactelnet_proxy.Base.{ℕ, ◌≡◌, refl, ◌∙◌, ap, true, false, ◌==◌, List, [], ◌∷◌, ◌++◌, Bytes, All}
use mactelnet_proxy.Text.Strings.{
  is_space, is_empty, cons_first, split_lines, trim_left, trim_right, trim_space, fields,
}

abbrev pub IsInLine : ℕ → Type 0
IsInLine c = (c == 10) ≡ false

-- A text of lines that are all ended.
abbrev pub unlines : List Bytes → Bytes
unlines [] = []
unlines (l ∷ ls) = l ++ (10 ∷ unlines ls)

split_lines_first :
    (l rest : Bytes) → All IsInLine l → split_lines (l ++ (10 ∷ rest)) ≡ l ∷ split_lines rest
unfolding split_lines
split_lines_first [] rest h = refl
split_lines_first (c ∷ cs) rest h =
    rw (h.0, split_lines) (ap (cons_first c) (split_lines_first cs rest h.1))

pub split_lines-unlines :
    (ls : List Bytes) → All (All IsInLine) ls → split_lines (unlines ls) ≡ ls ++ [] ∷ []
unfolding split_lines
split_lines-unlines [] h = refl
split_lines-unlines (l ∷ ls) h =
    split_lines_first l (unlines ls) h.0 ∙ ap (◌∷◌ l) (split_lines-unlines ls h.1)

-- A word of runes that are no spaces.
abbrev pub IsSolid : ℕ → Type 0
IsSolid c = is_space c ≡ false

pub fields_space : (c : ℕ) (cs : Bytes) → is_space c ≡ true → fields (c ∷ cs) ≡ fields cs
unfolding fields
fields_space c [] h = rw (h, fields) refl
fields_space c (d ∷ cs) h = rw (h, fields) refl

pub fields_word :
    (c : ℕ) (w : Bytes) (sp : ℕ) (rest : Bytes)
    → All IsSolid (c ∷ w)
    → is_space sp ≡ true
    → fields ((c ∷ w) ++ (sp ∷ rest)) ≡ (c ∷ w) ∷ fields rest
unfolding fields
fields_word c [] sp rest h k = rw (h.0, fields) (rw k (ap (◌∷◌ (c ∷ [])) (fields_space sp rest k)))
fields_word c (d ∷ w) sp rest h k =
    rw (h.0, fields) (rw h.1.0 (ap (cons_first c) (fields_word d w sp rest h.1 k)))

trim_left_solid : (c : ℕ) (cs : Bytes) → is_space c ≡ false → trim_left (c ∷ cs) ≡ c ∷ cs
unfolding trim_left
trim_left_solid c cs h = rw (h, trim_left) refl

trim_right_solid : (c : ℕ) (w : Bytes) → All IsSolid (c ∷ w) → trim_right (c ∷ w) ≡ c ∷ w
unfolding trim_right
trim_right_solid c [] h = rw (h.0, trim_right) refl
trim_right_solid c (d ∷ w) h = rw (trim_right_solid d w h.1, trim_right) refl

trim_right_behind :
    (xs : Bytes) (c : ℕ) (w : Bytes)
    → All IsSolid (c ∷ w)
    → trim_right (xs ++ (c ∷ w)) ≡ xs ++ (c ∷ w)
unfolding trim_right
trim_right_behind [] c w h = trim_right_solid c w h
trim_right_behind (x ∷ xs) c w h =
    rw (trim_right_behind xs c w h, trim_right) (rw (nonempty xs) refl)
  where
    nonempty : (xs : Bytes) → is_empty (xs ++ (c ∷ w)) ≡ false
    nonempty [] = refl
    nonempty (x ∷ xs) = refl

-- A text that begins and ends with no space stays as it is.
pub trim_space_solid :
    (a : ℕ) (xs : Bytes) (c : ℕ) (w : Bytes)
    → is_space a ≡ false
    → All IsSolid (c ∷ w)
    → trim_space (a ∷ (xs ++ (c ∷ w))) ≡ a ∷ (xs ++ (c ∷ w))
unfolding trim_space
trim_space_solid a xs c w h k =
    rw (trim_left_solid a (xs ++ (c ∷ w)) h) (trim_right_behind (a ∷ xs) c w k)

pub trim_space_word :
    (sp c : ℕ) (w : Bytes)
    → is_space sp ≡ true
    → All IsSolid (c ∷ w)
    → trim_space (sp ∷ c ∷ w) ≡ c ∷ w
unfolding trim_space trim_left
trim_space_word sp c w h k =
    rw (h, trim_left) (rw (trim_left_solid c w k.0) (trim_right_solid c w k))
