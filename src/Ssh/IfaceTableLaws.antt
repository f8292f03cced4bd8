-- ===== src/Ssh/IfaceTableLaws.antt =====
-- The layout of the table of interfaces: writeIfaceTable of src/internal/sshserver/ifaces.go.
use mactelnet_proxy.Base.{
  ℕ, ◌+◌, ◌-◌, ◌≤◌, ◌<◌, ◌≡◌, arith, List, [], ◌∷◌, Bytes, All, length, length-append,
  length-replicate, replicate,
}
use mactelnet_proxy.Text.Strings.{codes, pad_left, pad_right, byte_len}
use mactelnet_proxy.Text.Numbers.{itoa}
use mactelnet_proxy.Text.NumbersLaws.{length-itoa}
use mactelnet_proxy.Ssh.Ifaces.{IfaceInfo}
use mactelnet_proxy.Ssh.IfaceTable.{
  Widths, widen, widths, start_widths, row_prefix, more_prefix, shown_mac,
}

-- Padding counts runes.
length-pad_right : (w : ℕ) (s : Bytes) → length s ≤ w → length (pad_right w s) ≡ w
unfolding pad_right
length-pad_right w s h =
    let e = length-append s (replicate (w - length s) 32) in
    let f = length-replicate {A = ℕ} (w - length s) 32 in omega (arith, e, f)

length-pad_left : (w : ℕ) (s : Bytes) → length s ≤ w → length (pad_left w s) ≡ w
unfolding pad_left
length-pad_left w s h =
    let e = length-append (replicate (w - length s) 32) s in
    let f = length-replicate {A = ℕ} (w - length s) 32 in omega (arith, e, f)

-- A rune has at least one byte.
length-byte_len : (s : Bytes) → length s ≤ byte_len s
unfolding byte_len
length-byte_len [] = omega arith
length-byte_len (r ∷ rs) = ground (arith, length-byte_len rs)

-- The columns before the last one of a row fill this width.
abbrev pub column : Widths → ℕ
column w = w.name_w + w.mac_w + w.mtu_w + 11

row_prefix-column :
    (w : Widths) (name index mac mtu : Bytes)
    → length name ≤ w.name_w
    → length index ≤ 3
    → length mac ≤ w.mac_w
    → length mtu ≤ w.mtu_w
    → length (row_prefix w name index mac mtu) ≡ column w
unfolding row_prefix
row_prefix-column w name index mac mtu n i m t =
    simp
      (
        length-append,
        length-pad_right w.name_w name n,
        length-pad_left 3 index i,
        length-pad_right w.mac_w mac m,
        length-pad_left w.mtu_w mtu t,
      )
      (omega arith)

more_prefix-column : (w : Widths) → length (more_prefix w) ≡ column w + 3
unfolding more_prefix
more_prefix-column w =
    simp
      (
        length-append,
        length-pad_right w.name_w [] (omega arith),
        length-pad_right w.mac_w [] (omega arith),
        length-pad_left w.mtu_w [] (omega arith),
      )
      (omega arith)

-- Widths that are at least as large.
record Below (v w : Widths) : Type 0 where
  name_le : v.name_w ≤ w.name_w
  mac_le : v.mac_w ≤ w.mac_w
  mtu_le : v.mtu_w ≤ w.mtu_w

widen-Below : (w : Widths) (r : IfaceInfo) → Below w (widen w r)
unfolding widen
widen-Below w r = record { name_le = ground arith; mac_le = ground arith; mtu_le = ground arith }

widths-Below : (rs : List IfaceInfo) (w : Widths) → Below w (widths rs w)
unfolding widths
widths-Below [] w = record { name_le = omega arith; mac_le = omega arith; mtu_le = omega arith }
widths-Below (r ∷ rs) w =
    let a = widen-Below w r in
    let b = widths-Below rs (widen w r) in
    let a0 = a.name_le in
    let a1 = a.mac_le in
    let a2 = a.mtu_le in
    let b0 = b.name_le in
    let b1 = b.mac_le in
    let b2 = b.mtu_le in
    record {
      name_le = omega (arith, a0, b0);
      mac_le = omega (arith, a1, b1);
      mtu_le = omega (arith, a2, b2);
    }

-- A row that fits into its columns.
record Fits (w : Widths) (r : IfaceInfo) : Type 0 where
  name_fits : byte_len r.name ≤ w.name_w
  mac_fits : byte_len r.mac ≤ w.mac_w
  mtu_fits : byte_len (itoa r.mtu) ≤ w.mtu_w

widen-Fits : (w : Widths) (r : IfaceInfo) → Fits (widen w r) r
unfolding widen
widen-Fits w r = record {
  name_fits = ground arith;
  mac_fits = ground arith;
  mtu_fits = ground arith;
}

widths-Fits : (r : IfaceInfo) (rs : List IfaceInfo) (w : Widths) → Fits (widths (r ∷ rs) w) r
unfolding widths
widths-Fits r rs w =
    let a = widen-Fits w r in
    let b = widths-Below rs (widen w r) in
    let a0 = a.name_fits in
    let a1 = a.mac_fits in
    let a2 = a.mtu_fits in
    let b0 = b.name_le in
    let b1 = b.mac_le in
    let b2 = b.mtu_le in
    record {
      name_fits = omega (arith, a0, b0);
      mac_fits = omega (arith, a1, b1);
      mtu_fits = omega (arith, a2, b2);
    }

widths_cover : (rs : List IfaceInfo) (w : Widths) → All (Fits (widths rs w)) rs
unfolding widths
widths_cover [] w = tt
widths_cover (r ∷ rs) w = (widths-Fits r rs w, widths_cover rs (widen w r))

-- Where the last column of a row begins.
abbrev pub Aligned : Widths → IfaceInfo → Type 0
Aligned w r = length (row_prefix w r.name (itoa r.index) (shown_mac r.mac) (itoa r.mtu)) ≡ column w

length-shown_mac : (mac : Bytes) (n : ℕ) → byte_len mac ≤ n → 3 ≤ n → length (shown_mac mac) ≤ n
length-shown_mac [] n h k = omega arith
length-shown_mac (c ∷ cs) n h k = let e = length-byte_len (c ∷ cs) in omega (arith, e)

Fits-Aligned : (w : Widths) (r : IfaceInfo) → Fits w r → 3 ≤ w.mac_w → r.index < 1000 → Aligned w r
Fits-Aligned w r f m i =
    let a = f.name_fits in
    let b = f.mtu_fits in
    let c = length-byte_len r.name in
    let d = length-byte_len (itoa r.mtu) in
    row_prefix-column w r.name (itoa r.index) (shown_mac r.mac) (itoa r.mtu) (omega (arith, a, c))
      (length-itoa 2 r.index i) (length-shown_mac r.mac w.mac_w f.mac_fits m) (omega (arith, b, d))

rows_in_columns :
    (w : Widths) (rs : List IfaceInfo)
    → 3 ≤ w.mac_w
    → All (Fits w) rs
    → All (λ r. r.index < 1000) rs
    → All (Aligned w) rs
rows_in_columns w [] m f i = tt
rows_in_columns w (r ∷ rs) m f i = (Fits-Aligned w r f.0 m i.0, rows_in_columns w rs m f.1 i.1)

-- In the table of any interfaces with indices below 1000, whatever their names, addresses and MTUs, the
-- last column begins at the same rune in every row and in the header, and the lines below a row begin
-- three runes further right.
pub iface_table-Aligned :
    (rows : List IfaceInfo)
    → All (λ r. r.index < 1000) rows
    → let w = widths rows start_widths in
      All (Aligned w) rows
      × (length (row_prefix w (codes "NAME") (codes "IDX") (codes "MAC") (codes "MTU")) ≡ column w)
      × (length (more_prefix w) ≡ column w + 3)
iface_table-Aligned rows i =
    let w = widths rows start_widths in
    let low = widths-Below rows start_widths in
    let l0 = low.name_le in
    let l1 = low.mac_le in
    let l2 = low.mtu_le in
    (
      rows_in_columns w rows l1 (widths_cover rows start_widths) i,
      row_prefix-column w (codes "NAME") (codes "IDX") (codes "MAC") (codes "MTU") l0 (omega arith)
          l1 l2,
      more_prefix-column w,
    )
