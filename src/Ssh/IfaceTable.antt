-- ===== src/Ssh/IfaceTable.antt =====
-- src/internal/sshserver/ifaces.go: writeIfaceTable, metaLine and execIfaces. The kernel's indices and MTUs
-- are not negative.
use mactelnet_proxy.Base.{
  ℕ, zero, suc, Bool, true, false, not, ◌&&◌, if◌then◌else◌, ltb, List, [], ◌∷◌, ◌++◌, Bytes, equal,
  Option, none, some, ok, err, replicate,
}
use mactelnet_proxy.Text.Strings.{codes, is_empty, join, pad_left, pad_right, byte_len}
use mactelnet_proxy.Text.Numbers.{ℤ, pos, negsuc, itoa}
use mactelnet_proxy.Text.Flags.{Flags, string_value, bool_value, find, string_of, bool_of, parse}
use mactelnet_proxy.Seq.Schedule.{Duration}
use mactelnet_proxy.Frame.Sockets.{NetInterface}
use mactelnet_proxy.Ssh.Ifaces.{System, IfaceInfo, summarize}
use mactelnet_proxy.Ssh.Exec.{
  bad_flags, enumerate_failed, encode_failed, iface_not_found, printed, Exec, complain,
}

-- `%d`
unfoldable pub int_text : ℤ → Bytes
int_text (pos n) = itoa n
int_text (negsuc n) = b'-' ∷ itoa (suc n)

abbrev is_zero : ℤ → Bool
is_zero (pos zero) = true
is_zero _ = false

abbrev part : Bool → Bytes → List Bytes → List Bytes
part true s parts = s ∷ parts
part false s parts = parts

-- `metaLine`
unfoldable pub meta_parts : IfaceInfo → List Bytes
meta_parts r = part (not (is_empty r.kind)) (codes "kind=" ++ r.kind) (
    part (not (is_empty r.parent)) (codes "parent=" ++ r.parent) (
      part (not (is_zero r.vid)) (codes "vid=" ++ int_text r.vid) (
        part (not (is_empty r.master)) (codes "master=" ++ r.master)
          (part (not (is_empty r.oper)) (codes "oper=" ++ r.oper) []))))

unfoldable pub meta_line : IfaceInfo → Bytes
meta_line r = join (codes "  ") (meta_parts r)

-- The widths of the three columns that depend on the data.
pub record Widths : Type 0 where
  pub name_w : ℕ
  pub mac_w : ℕ
  pub mtu_w : ℕ

abbrev pub larger : ℕ → ℕ → ℕ
larger n w = if ltb w n then n else w

abbrev pub start_widths : Widths
start_widths = record { name_w = 4; mac_w = 3; mtu_w = 3 }

unfoldable pub widen : Widths → IfaceInfo → Widths
widen w r = record {
  name_w = larger (byte_len r.name) w.name_w;
  mac_w = larger (byte_len r.mac) w.mac_w;
  mtu_w = larger (byte_len (itoa r.mtu)) w.mtu_w;
}

unfoldable pub widths : List IfaceInfo → Widths → Widths
widths [] w = w
widths (r ∷ rs) w = widths rs (widen w r)

-- The columns before the last, of a row and of the lines below it.
unfoldable pub row_prefix : Widths → Bytes → Bytes → Bytes → Bytes → Bytes
row_prefix w name index mac mtu =
    pad_right w.name_w name
    ++ (codes "  "
        ++ (pad_left 3 index
            ++ (codes "  "
                ++ (pad_right w.mac_w mac
                    ++ (codes "  " ++ (pad_left w.mtu_w mtu ++ codes "  "))))))

unfoldable pub more_prefix : Widths → Bytes
more_prefix w =
    pad_right w.name_w []
    ++ (codes "        "
        ++ (pad_right w.mac_w [] ++ (codes "  " ++ (pad_left w.mtu_w [] ++ codes "    "))))

unfoldable pub header_line : Widths → Bytes
header_line w =
    row_prefix w (codes "NAME") (codes "IDX") (codes "MAC") (codes "MTU") ++ codes "FLAGS / ADDRS"

abbrev pub shown_mac : Bytes → Bytes
shown_mac mac = if is_empty mac then codes "-" else mac

unfoldable pub first_line : Widths → IfaceInfo → Bytes
first_line w r =
    row_prefix w r.name (itoa r.index) (shown_mac r.mac) (itoa r.mtu) ++ (r.flags ++ 10 ∷ [])

unfoldable pub more_line : Widths → Bytes → Bytes
more_line w s = more_prefix w ++ (s ++ 10 ∷ [])

unfoldable pub more_lines : Widths → List Bytes → Bytes
more_lines w [] = []
more_lines w (s ∷ ss) = more_line w s ++ more_lines w ss

unfoldable pub iface_block : Widths → IfaceInfo → Bytes
iface_block w r =
    let meta = meta_line r in
    first_line w r
    ++ ((if is_empty meta then [] else more_line w meta)
        ++ (more_lines w r.ipv4 ++ more_lines w r.ipv6))

unfoldable pub iface_blocks : Widths → List IfaceInfo → Bytes
iface_blocks w [] = []
iface_blocks w (r ∷ rs) = iface_block w r ++ iface_blocks w rs

-- `writeIfaceTable`
unfoldable pub iface_table : List IfaceInfo → Bytes
iface_table rows =
    let w = widths rows start_widths in
    let header = header_line w in
    header ++ (10 ∷ (replicate (byte_len header) b'-' ++ (10 ∷ iface_blocks w rows)))

-- The interfaces that are asked for, summarized.
unfoldable pub select : System → Bytes → List NetInterface → List IfaceInfo
select sys only [] = []
select sys only (i ∷ is) =
    let rest = select sys only is in
    if not (is_empty only) && not (equal i.name only) then rest else summarize sys i ∷ rest

-- `sort.Slice` by the index, which is different for each interface, as an insertion sort.
unfoldable pub insert_info : IfaceInfo → List IfaceInfo → List IfaceInfo
insert_info r [] = r ∷ []
insert_info r (k ∷ ks) = if ltb k.index r.index then k ∷ insert_info r ks else r ∷ k ∷ ks

unfoldable pub sort_infos : List IfaceInfo → List IfaceInfo
sort_infos [] = []
sort_infos (r ∷ rs) = insert_info r (sort_infos rs)

abbrev pub ifaces_flags : Flags
ifaces_flags = (codes "j", bool_value false) ∷ (codes "i", string_value []) ∷ []

unfoldable pub list_json : Option Bytes → Exec
list_json none = complain 1 encode_failed
list_json (some text) = record { code = 0; actions = printed text ∷ [] }

abbrev no_infos : List IfaceInfo → Bool
no_infos [] = true
no_infos (r ∷ rs) = false

-- From the selected interfaces on.
unfoldable pub list_infos : (List IfaceInfo → Option Bytes) → Bool → Bytes → List IfaceInfo → Exec
list_infos json as_json only out =
    if not (is_empty only) && no_infos out
    then complain 1 (iface_not_found only)
    else if as_json
    then list_json (json out)
    else record { code = 0; actions = printed (iface_table out) ∷ [] }

unfoldable pub run_ifaces_flags :
    System → Option (List NetInterface) → (List IfaceInfo → Option Bytes) → Flags → Exec
run_ifaces_flags sys all json fs = elim all [
  | none ↦ complain 1 enumerate_failed
  | some is ↦
      let only = string_of (find (codes "i") fs) in
      list_infos json (bool_of (find (codes "j") fs)) only (sort_infos (select sys only is))
]

-- `execIfaces`: `all` is `net.Interfaces()`.
unfoldable pub exec_ifaces :
    (Bytes → Option Duration)
    → System
    → Option (List NetInterface)
    → (List IfaceInfo → Option Bytes)
    → List Bytes
    → Exec
exec_ifaces parse_duration sys all json args = elim (parse parse_duration ifaces_flags args) [
  | err e ↦ complain 2 bad_flags
  | ok fs ↦ run_ifaces_flags sys all json fs.flags
]
