-- ===== src/Ssh/VlanFile.antt =====
-- readVLAN of src/internal/sshserver/ifaces.go on the files of /proc/net/vlan.
use mactelnet_proxy.Base.{
  ℕ, zero, suc, ◌<◌, ◌≡◌, refl, ◌∙◌, ap, arith, Bool, true, false, leb, ◌==◌, if◌then◌else◌, List,
  [], ◌∷◌, ◌++◌, append_assoc, Bytes, equal, All, All-append, Option, none, some,
}
use mactelnet_proxy.Text.Strings.{
  codes, lower, is_space, fields, cut_prefix, trim_space, trim_left, trim_right,
}
use mactelnet_proxy.Text.StringsLaws.{
  IsInLine, unlines, split_lines-unlines, IsSolid, fields_space, fields_word, trim_space_solid,
  trim_space_word,
}
use mactelnet_proxy.Text.Numbers.{
  ℤ, pos, itoa, atoi, parse_decimal, parse_digits, push_digit, digit_value, u64_max,
}
use mactelnet_proxy.Text.NumbersLaws.{
  parse_decimal-itoa, itoa-Leads, itoa-Digits, Leads, leads, IsDigit,
}
use mactelnet_proxy.Ssh.Ifaces.{System, read_vid, vid_or, read_parent, vlan_lines, read_vlan}

atoi-digits :
    (s : Bytes) (n : ℕ)
    → Leads s
    → parse_decimal u64_max s ≡ some n
    → n < 9_223_372_036_854_775_808
    → atoi s ≡ some (pos n)
unfolding atoi
atoi-digits _ n (leads c cs h k) e small =
    let minus : (c == b'-') ≡ false = ground arith in
    let plus : (c == b'+') ≡ false = ground arith in
    let fits : leb 9_223_372_036_854_775_808 n ≡ false = ground arith in
    rw (minus, atoi) (rw plus (rw e (rw fits refl)))

digit-IsSolid : (c : ℕ) → IsDigit c → is_space c ≡ false
unfolding is_space
digit-IsSolid c h = ground arith

digits-IsSolid : (cs : Bytes) → All IsDigit cs → All IsSolid cs
digits-IsSolid [] h = tt
digits-IsSolid (c ∷ cs) h = (digit-IsSolid c h.0, digits-IsSolid cs h.1)

kept :
    (b : Bool) (v : ℕ) (o : Option ℤ)
    → (if b then vid_or (pos (suc v)) o else pos (suc v)) ≡ pos (suc v)
kept true v none = refl
kept true v (some n) = refl
kept false v o = refl

atoi_word : atoi (codes "VID:") ≡ none
unfolding atoi parse_decimal parse_digits push_digit digit_value lower
atoi_word = refl

no_vid : (b : Bool) → (if b then vid_or (pos 0) (atoi (codes "VID:")) else pos 0) ≡ pos 0
no_vid true = rw atoi_word refl
no_vid false = refl

-- The first VID that is not zero stays.
read_vid_stays : (fs : List Bytes) (v : ℕ) → 0 < v → read_vid fs (pos v) ≡ pos v
unfolding read_vid
read_vid_stays [] v h = refl
read_vid_stays (f ∷ []) v h = refl
read_vid_stays (f ∷ g ∷ fs) (suc v) h =
    ap (read_vid (g ∷ fs)) (kept (equal f (codes "VID:")) v (atoi g))
    ∙ read_vid_stays (g ∷ fs) (suc v) h
read_vid_stays (f ∷ g ∷ fs) zero h = absurd (omega arith)

-- The line with the number, as the kernel writes it: "NAME  VID: 100", and more behind a space.
abbrev pub vid_line : ℕ → Bytes → ℕ → ℕ → Bytes → Bytes
vid_line n name vid sp tail =
    (n ∷ name) ++ (32 ∷ 32 ∷ (codes "VID:" ++ (32 ∷ (itoa vid ++ (sp ∷ tail)))))

fields-vid_line :
    (n : ℕ) (name : Bytes) (vid sp : ℕ) (tail : Bytes)
    → All IsSolid (n ∷ name)
    → is_space sp ≡ true
    → 0 < vid
    → fields (vid_line n name vid sp tail) ≡ (n ∷ name) ∷ codes "VID:" ∷ itoa vid ∷ fields tail
unfolding is_space
fields-vid_line n name vid sp tail h k v =
    fields_word n name 32 _ h refl
    ∙ ap (◌∷◌ (n ∷ name)) (
        fields_space 32 _ refl
        ∙ fields_word b'V' (codes "ID:") 32 (itoa vid ++ (sp ∷ tail))
            (refl, (refl, (refl, (refl, tt)))) refl
        ∙ ap (◌∷◌ (codes "VID:")) (number (itoa-Leads vid v) (digits-IsSolid _ (itoa-Digits vid))))
  where
    number : {s : Bytes} → Leads s → All IsSolid s → fields (s ++ (sp ∷ tail)) ≡ s ∷ fields tail
    number (leads c cs a b) solid = fields_word c cs sp tail solid k

read_vid-vid_line :
    (n : ℕ) (name : Bytes) (vid sp : ℕ) (tail : Bytes)
    → All IsSolid (n ∷ name)
    → is_space sp ≡ true
    → 0 < vid
    → vid < 9_223_372_036_854_775_808
    → read_vid (fields (vid_line n name vid sp tail)) (pos 0) ≡ pos vid
unfolding read_vid
read_vid-vid_line n name vid sp tail h k v w =
    let number : atoi (itoa vid) ≡ some (pos vid) =
      atoi-digits (itoa vid) vid (itoa-Leads vid v) (parse_decimal-itoa u64_max vid (omega arith))
        w in
    rw (fields-vid_line n name vid sp tail h k v) (
      ap (λ x. read_vid (itoa vid ∷ fields tail) (vid_or x (atoi (itoa vid))))
        (no_vid (equal (n ∷ name) (codes "VID:")))
      ∙ ap (λ o. read_vid (itoa vid ∷ fields tail) (vid_or (pos 0) o)) number
      ∙ read_vid_stays (itoa vid ∷ fields tail) vid v)

vlan_lines-append :
    (xs ys : List Bytes) (parent : Bytes) (vid : ℤ)
    → vlan_lines (xs ++ ys) parent vid
      ≡ (let (p, v) = vlan_lines xs parent vid in vlan_lines ys p v)
unfolding vlan_lines
vlan_lines-append [] ys parent vid = refl
vlan_lines-append (x ∷ xs) ys parent vid = vlan_lines-append xs ys _ _

-- The number stays whatever lines follow.
vid_stays :
    (ls : List Bytes) (parent : Bytes) (v : ℕ) → 0 < v → (vlan_lines ls parent (pos v)).1 ≡ pos v
unfolding vlan_lines
vid_stays [] parent v h = refl
vid_stays (l ∷ ls) parent v h =
    ap (λ x. (vlan_lines ls (read_parent l parent) x).1) (read_vid_stays (fields l) v h)
    ∙ vid_stays ls _ v h

-- A line that names no device.
abbrev pub NoDevice : Bytes → Type 0
NoDevice l = cut_prefix (trim_space l) (codes "Device:") ≡ none

parent_stays :
    (ls : List Bytes) (parent : Bytes) (vid : ℤ)
    → All NoDevice ls
    → (vlan_lines ls parent vid).0 ≡ parent
unfolding vlan_lines read_parent
parent_stays [] parent vid h = refl
parent_stays (l ∷ ls) parent vid h =
    let e : read_parent l parent ≡ parent = rw (h.0, read_parent) refl in
    ap (λ x. (vlan_lines ls x (read_vid (fields l) vid)).0) e ∙ parent_stays ls parent _ h.1

-- The line with the device, as the kernel writes it.
abbrev pub device_line : ℕ → Bytes → Bytes
device_line p parent = codes "Device: " ++ (p ∷ parent)

read_parent-device_line :
    (p : ℕ) (parent before : Bytes)
    → All IsSolid (p ∷ parent)
    → read_parent (device_line p parent) before ≡ p ∷ parent
unfolding read_parent cut_prefix is_space
read_parent-device_line p parent before h =
    rw (trim_space_solid b'D' (codes "evice: ") p parent refl h, read_parent)
      (trim_space_word 32 p parent refl h)

same_pair : (r : Bytes × ℤ) {a : Bytes} {b : ℤ} → r.0 ≡ a → r.1 ≡ b → r ≡ (a, b)
same_pair (x, y) e f = rw e (rw f refl)

empty_line-NoDevice : NoDevice []
unfolding cut_prefix trim_space trim_left trim_right
empty_line-NoDevice = refl

parent_read :
    (mid after : List Bytes) (p : ℕ) (parent before : Bytes) (vid : ℤ)
    → All IsSolid (p ∷ parent)
    → All NoDevice after
    → (vlan_lines (mid ++ device_line p parent ∷ after) before vid).0 ≡ p ∷ parent
unfolding vlan_lines
parent_read mid after p parent before vid q free =
    let r = vlan_lines mid before vid in
    let dev = device_line p parent in
    ap (λ x. x.0) (vlan_lines-append mid (dev ∷ after) before vid)
    ∙ parent_stays after (read_parent dev r.0) (read_vid (fields dev) r.1) free
    ∙ read_parent-device_line p parent r.0 q

abbrev pub file_lines : Bytes → List Bytes → Bytes → List Bytes → List Bytes
file_lines first mid device after = first ∷ (mid ++ device ∷ after)

-- From a file of /proc/net/vlan whose first line is "NAME  VID: N" with more behind a space, and which has
-- a line "Device: PARENT" with none such after it, readVLAN reads N, if it is positive and below 2^63, and
-- PARENT, whatever else the lines say.
pub read_vlan_lem :
    (sys : System) (file : Bytes) (n : ℕ) (name : Bytes) (vid sp : ℕ) (tail : Bytes)
    (mid after : List Bytes) (p : ℕ) (parent : Bytes)
    → All IsSolid (n ∷ name)
    → is_space sp ≡ true
    → 0 < vid
    → vid < 9_223_372_036_854_775_808
    → All IsSolid (p ∷ parent)
    → All NoDevice after
    → All (All IsInLine) (file_lines (vid_line n name vid sp tail) mid (device_line p parent) after)
    → sys.proc_vlan file
      ≡ some (unlines (file_lines (vid_line n name vid sp tail) mid (device_line p parent) after))
    → read_vlan sys file ≡ (p ∷ parent, pos vid)
unfolding read_vlan vlan_lines
read_vlan_lem sys file n name vid sp tail mid after p parent h k v w q free inline e =
    let first = vid_line n name vid sp tail in
    let rest = mid ++ device_line p parent ∷ (after ++ [] ∷ []) in
    let number = read_vid-vid_line n name vid sp tail h k v w in
    let whole : (mid ++ device_line p parent ∷ after) ++ [] ∷ [] ≡ rest =
      append_assoc mid (device_line p parent ∷ after) ([] ∷ []) in
    let none_after = All-append NoDevice after ([] ∷ []) free (empty_line-NoDevice, tt) in
    rw (e, read_vlan)
      (ap (λ ls. vlan_lines ls [] (pos 0))
          (split_lines-unlines (first ∷ (mid ++ device_line p parent ∷ after)) inline
            ∙ ap (◌∷◌ first) whole)
        ∙ same_pair (vlan_lines (first ∷ rest) [] (pos 0))
            (parent_read mid (after ++ [] ∷ []) p parent (read_parent first []) _ q none_after)
            (ap (λ x. (vlan_lines rest (read_parent first []) x).1) number
              ∙ vid_stays rest (read_parent first []) vid v))
