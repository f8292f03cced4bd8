-- ===== src/Ssh/Ifaces.antt =====
-- src/internal/sshserver/ifaces.go: the facts about an interface, out of the files of /sys and /proc.
-- What the files hold and what the kernel answers is given; texts are lists of runes.
use mactelnet_proxy.Base.{
  ℕ, zero, Bool, true, false, ◌&&◌, if◌then◌else◌, List, [], ◌∷◌, Bytes, equal, Option, none, some,
}
use mactelnet_proxy.Text.Strings.{
  codes, is_empty, split_lines, fields, cut_prefix, trim_space, after_slash,
}
use mactelnet_proxy.Text.Numbers.{ℤ, pos, atoi}
use mactelnet_proxy.Frame.Sockets.{NetInterface}

-- An address of `iface.Addrs()`: no network, or the text of a network of IPv4 or of IPv6.
pub data Addr : Type 0 where
  other_addr : Addr
  v4_net v6_net : Bytes → Addr

-- The system behind the listing: /sys/class/net/NAME/FILE, whether its wireless node exists, the target
-- of its master link, /proc/net/vlan/NAME, the addresses, and the texts of flags and of a MAC.
pub record System : Type 0 where
  pub sys_net : Bytes → Bytes → Option Bytes
  pub wireless : Bytes → Bool
  pub master_link : Bytes → Option Bytes
  pub proc_vlan : Bytes → Option Bytes
  pub addrs : Bytes → Option (List Addr)
  pub flags_text : NetInterface → Bytes
  pub mac_text : Bytes → Bytes

-- `ifaceInfo`
pub record IfaceInfo : Type 0 where
  pub name : Bytes
  pub index : ℕ
  pub mac : Bytes
  pub mtu : ℕ
  pub flags : Bytes
  pub kind : Bytes
  pub parent : Bytes
  pub vid : ℤ
  pub master : Bytes
  pub oper : Bytes
  pub ipv4 : List Bytes
  pub ipv6 : List Bytes

-- `readSysNet`
unfoldable pub read_sys_net : System → Bytes → Bytes → Bytes
read_sys_net sys name file = elim (sys.sys_net name file) [ none ↦ [] | some b ↦ trim_space b ]

-- The loop of `readKind`
unfoldable pub dev_type : List Bytes → Option Bytes
dev_type [] = none
dev_type (line ∷ lines) = elim (cut_prefix line (codes "DEVTYPE=")) [
  | some v ↦ some v
  | none ↦ dev_type lines
]

-- `readKind`
unfoldable pub read_kind : System → NetInterface → Bytes
read_kind sys iface =
    if iface.flag_loopback
    then codes "loopback"
    else elim (dev_type (split_lines (read_sys_net sys iface.name (codes "uevent")))) [
      | some v ↦ v
      | none ↦
          if sys.wireless iface.name
          then codes "wireless"
          else if iface.flag_point_to_point
          then codes "ptp"
          else codes "ether"
    ]

-- `readMaster`; the link's target has no trailing slash.
unfoldable pub read_master : System → Bytes → Bytes
read_master sys name = elim (sys.master_link name) [
  | none ↦ []
  | some target ↦ after_slash target []
]

abbrev is_zero : ℤ → Bool
is_zero (pos zero) = true
is_zero _ = false

-- The first number behind "VID:" that is not zero.
abbrev pub vid_or : ℤ → Option ℤ → ℤ
vid_or vid none = vid
vid_or vid (some v) = if is_zero vid then v else vid

unfoldable pub read_vid : List Bytes → ℤ → ℤ
read_vid [] vid = vid
read_vid (f ∷ []) vid = vid
read_vid (f ∷ g ∷ fs) vid =
    read_vid (g ∷ fs) (if equal f (codes "VID:") then vid_or vid (atoi g) else vid)

unfoldable pub read_parent : Bytes → Bytes → Bytes
read_parent line parent = elim (cut_prefix (trim_space line) (codes "Device:")) [
  | none ↦ parent
  | some rest ↦ trim_space rest
]

unfoldable pub vlan_lines : List Bytes → Bytes → ℤ → Bytes × ℤ
vlan_lines [] parent vid = (parent, vid)
vlan_lines (line ∷ lines) parent vid =
    vlan_lines lines (read_parent line parent) (read_vid (fields line) vid)

-- `readVLAN`
unfoldable pub read_vlan : System → Bytes → Bytes × ℤ
read_vlan sys name = elim (sys.proc_vlan name) [
  | none ↦ ([], pos 0)
  | some b ↦ vlan_lines (split_lines b) [] (pos 0)
]

-- `readOper`
unfoldable pub read_oper : System → Bytes → Bytes
read_oper sys name =
    let op = read_sys_net sys name (codes "operstate") in
    if equal op (codes "up") && equal (read_sys_net sys name (codes "carrier")) (codes "0")
    then codes "no-carrier"
    else op

unfoldable pub v4_of : List Addr → List Bytes
v4_of [] = []
v4_of (v4_net s ∷ as') = s ∷ v4_of as'
v4_of (_ ∷ as') = v4_of as'

unfoldable pub v6_of : List Addr → List Bytes
v6_of [] = []
v6_of (v6_net s ∷ as') = s ∷ v6_of as'
v6_of (_ ∷ as') = v6_of as'

abbrev addrs_or_none : Option (List Addr) → List Addr
addrs_or_none none = []
addrs_or_none (some l) = l

abbrev vlan_if : System → Bool → Bytes → Bytes × ℤ
vlan_if sys true name = read_vlan sys name
vlan_if sys false name = ([], pos 0)

-- `summarize`
unfoldable pub summarize : System → NetInterface → IfaceInfo
summarize sys iface =
    let kind = read_kind sys iface in
    let (parent, vid) = vlan_if sys (equal kind (codes "vlan")) iface.name in
    let found = addrs_or_none (sys.addrs iface.name) in
    record {
      name = iface.name;
      index = iface.index;
      mac = if is_empty iface.hardware_addr then [] else sys.mac_text iface.hardware_addr;
      mtu = iface.mtu;
      flags = sys.flags_text iface;
      kind = kind;
      parent = parent;
      vid = vid;
      master = read_master sys iface.name;
      oper = read_oper sys iface.name;
      ipv4 = v4_of found;
      ipv6 = v6_of found;
    }
