-- ===== src/Cli/MndpLaws.antt =====
-- The two mndp commands, execMndp of src/internal/sshserver/exec.go and runMndp of
-- src/cmd/mactelnet-proxy/mndp.go, do the same.
use mactelnet_proxy.Base.{
  ℕ, ◌*◌, ◌≤◌, ◌≡◌, refl, ◌∙◌, arith, inl, inr, Bool, true, false, ltb, if◌then◌else◌, List, [],
  ◌∷◌, ◌++◌, append_assoc, append-nil, Bytes, Option, Result-cases, Bool-cases, Option-cases,
}
use mactelnet_proxy.Text.Strings.{codes, is_empty}
use mactelnet_proxy.Text.Numbers.{ℤ, pos, negsuc}
use mactelnet_proxy.Text.Flags.{Flags, find, int_of, parse}
use mactelnet_proxy.Seq.Schedule.{Duration, nanos, second}
use mactelnet_proxy.Mndp.Discover.{Neighbor}
use mactelnet_proxy.Ssh.Exec.{
  Config, Exec, Action, complained, printed, searching, behind, complain, discover_failed,
}
use mactelnet_proxy.Ssh.ExecMndp.{
  MndpWorld, mndp_flags, seconds_window, discover_on, platform_part, uptime_part, software_part,
  iface_part, neighbor_row, neighbor_rows, neighbor_header, neighbor_table, print_json,
  print_neighbors, run_discovery, run_mndp_flags, exec_mndp,
}
use mactelnet_proxy.Cli.Mndp
use mactelnet_proxy.Cli.Mndp.{
  Output, print_platform, print_uptime, print_software, print_iface, print_row, print_rows,
  table_header, print_table, print_found, run_for, run_flags, run_mndp,
}

-- A conditional write is a write of a conditional text.
write_unless :
    (b : Bool) (out x : Bytes) → (if b then out else out ++ x) ≡ out ++ (if b then [] else x)
write_unless true out x = rw append-nil refl
write_unless false out x = refl

write_if : (b : Bool) (out x : Bytes) → (if b then out ++ x else out) ≡ out ++ (if b then x else [])
write_if true out x = refl
write_if false out x = rw append-nil refl

platform_lem : (n : Neighbor) (out : Bytes) → print_platform n out ≡ out ++ platform_part n
unfolding print_platform platform_part
platform_lem n out = write_unless (is_empty n.platform) out _

uptime_lem : (n : Neighbor) (out : Bytes) → print_uptime n out ≡ out ++ uptime_part n
unfolding print_uptime uptime_part
uptime_lem n out = write_if (ltb 0 n.uptime) out _

software_lem : (n : Neighbor) (out : Bytes) → print_software n out ≡ out ++ software_part n
unfolding print_software software_part
software_lem n out = write_unless (is_empty n.software_id) out _

iface_lem : (n : Neighbor) (out : Bytes) → print_iface n out ≡ out ++ iface_part n
unfolding print_iface iface_part
iface_lem n out = write_unless (is_empty n.iface) out _

print_row-neighbor_row : (out : Bytes) (n : Neighbor) → print_row out n ≡ out ++ neighbor_row n
unfolding print_row neighbor_row
print_row-neighbor_row out n =
    rw (iface_lem n, software_lem n, uptime_lem n, platform_lem n) (simp append_assoc refl)

print_rows-neighbor_rows :
    (ns : List Neighbor) (out : Bytes) → print_rows out ns ≡ out ++ neighbor_rows ns
unfolding print_rows neighbor_rows
print_rows-neighbor_rows [] out = rw append-nil refl
print_rows-neighbor_rows (n ∷ ns) out =
    print_rows-neighbor_rows ns (print_row out n)
    ∙ rw (print_row-neighbor_row out n) (append_assoc out (neighbor_row n) (neighbor_rows ns))

pub print_table-neighbor_rows :
    (ns : List Neighbor) → print_table ns ≡ (table_header ++ 10 ∷ []) ++ neighbor_rows ns
unfolding print_table
print_table-neighbor_rows ns = print_rows-neighbor_rows ns (table_header ++ 10 ∷ [])

-- The text that an engine prints to the channel.
unfoldable pub stdout_of : List Action → Bytes
stdout_of [] = []
stdout_of (printed s ∷ more) = s ++ stdout_of more
stdout_of (_ ∷ more) = stdout_of more

-- The same exit code, and the same text, up to the two headers of a table.
pub data SameRun (e : Exec) (o : Output) : Type 0 where
  same_text : e.code ≡ o.code → stdout_of e.actions ≡ o.stdout → SameRun e o
  same_rows :
      (ns : List Neighbor)
      → e.code ≡ o.code
      → stdout_of e.actions ≡ (10 ∷ (neighbor_header ++ 10 ∷ [])) ++ neighbor_rows ns
      → o.stdout ≡ (table_header ++ 10 ∷ []) ++ neighbor_rows ns
      → SameRun e o

shown :
    (w : MndpWorld) (ns : List Neighbor) (as_json : Bool)
    → SameRun
        (behind (if as_json then [] else complained searching ∷ []) (print_neighbors w as_json ns))
        (print_found w as_json ns)
unfolding print_neighbors print_found print_json neighbor_table stdout_of
shown w ns true = elim (Option-cases (w.json ns)) [
  | inl e ↦ rw (e, print_neighbors, print_json, print_found) (same_text refl refl)
  | inr (text, e) ↦
      rw (e, print_neighbors, print_json, print_found) (same_text refl (append-nil text))
]
shown w ns false =
    same_rows ns refl (simp (append_assoc, append-nil) refl) (print_table-neighbor_rows ns)

discovered :
    (w : MndpWorld) (iface : Bytes) (as_json : Bool) (secs : ℕ)
    → SameRun (run_discovery w iface as_json secs) (run_for w iface as_json secs)
unfolding run_discovery run_for stdout_of
discovered w iface as_json secs = elim (Option-cases (discover_on w iface (seconds_window secs))) [
  | inr (ns, e) ↦ rw (e, run_discovery, run_for) (shown w ns as_json)
  | inl e ↦ rw (e, run_discovery, run_for) (nothing as_json)
]
  where
    nothing :
        (as_json : Bool)
        → SameRun
            (behind
              (if as_json then [] else complained searching ∷ [])
              (complain 1 discover_failed))
            (record {
              code = 1;
              stderr = (if as_json then [] else Mndp.searching ∷ []) ++ Mndp.discover_failed ∷ [];
              stdout = [];
            })
    nothing true = same_text refl refl
    nothing false = same_text refl refl

flagged : (w : MndpWorld) (fs : Flags) → SameRun (run_mndp_flags w fs) (run_flags w fs)
unfolding run_mndp_flags run_flags stdout_of
flagged w fs = go (int_of (find (codes "t") fs)) refl
  where
    go : (t : ℤ) → int_of (find (codes "t") fs) ≡ t → SameRun (run_mndp_flags w fs) (run_flags w fs)
    go (negsuc n) e = rw (e, run_mndp_flags, run_flags) (same_text refl refl)
    go (pos n) e = elim (Bool-cases (ltb 0 n)) [
      | inl k ↦ rw (e, run_mndp_flags, run_flags) (rw k (discovered w _ _ n))
      | inr k ↦ rw (e, run_mndp_flags, run_flags) (rw k (same_text refl refl))
    ]

-- Where the server has no default interface, the mndp command over SSH and the subcommand of the daemon
-- end with the same exit code for the same arguments, and print the same: the same JSON, the same rows
-- below their two headers, or nothing.
pub exec_mndp-run_mndp :
    (pd : Bytes → Option Duration) (cfg : Config) (w : MndpWorld) (args : List Bytes)
    → cfg.iface ≡ []
    → SameRun (exec_mndp pd cfg w args) (run_mndp pd w args)
unfolding exec_mndp run_mndp stdout_of
exec_mndp-run_mndp pd cfg w args h = elim (Result-cases (parse pd (mndp_flags []) args)) [
  | inl (fs, e) ↦ rw (h, exec_mndp) (rw (e, exec_mndp, run_mndp) (flagged w fs.flags))
  | inr (x, e) ↦ rw (h, exec_mndp) (rw (e, exec_mndp, run_mndp) (same_text refl refl))
]

-- A positive window of less than 2^63 nanoseconds is that many seconds; the product of a longer one wraps.
pub seconds_window_lem : (t : ℕ) → t ≤ 9_223_372_036 → seconds_window t ≡ nanos (t * second)
unfolding seconds_window
seconds_window_lem t h = ground arith
