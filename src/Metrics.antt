-- ===== src/Metrics.antt =====
-- crates/interfire-daemon/src/proc_metrics.rs: the memory and the time of the daemon itself, from the
-- files of `/proc/self`, which are arguments, none where a file cannot be read.
use inter_fire.Prelude.{
  ℕ, ◌+◌, ◌-◌, ◌^◌, ◌≤◌, ◌≡◌, refl, false, Option, none, some, List, [], ◌∷◌, ◌++◌, min, Text, lit,
  strip_prefix, split_whitespace, get_elem?, parse_uint, show_nat, parse_uint-show_nat, read_lines,
  contains, eq_nat,
}
use inter_fire.Process.{and_then, after_last}
use inter_fire.Process.Stat.{after_last-append}

-- `SelfMetrics`
pub record SelfMetrics : Type 0 where
  pub pid : ℕ
  pub rss_kib : ℕ
  pub cpu_jiffies : ℕ

abbrev parse_u64 : Text → Option ℕ
parse_u64 = parse_uint (2 ^ 64 - 1)

-- The first line that begins with `VmRSS:` decides, even if its value is no number.
abbrev rss_of : List Text → Option ℕ
rss_of [] = none
rss_of (line ∷ lines) =
    let rest = rss_of lines in
    elim (strip_prefix (lit "VmRSS:") line) [
      | some value ↦ and_then (get_elem? (split_whitespace value) 0) parse_u64
      | none ↦ rest
    ]

-- `parse_vm_rss_kib`
unfoldable pub parse_vm_rss_kib : Text → Option ℕ
parse_vm_rss_kib status = rss_of (read_lines status)

-- `u64::saturating_add`
abbrev saturating_add : ℕ → ℕ → ℕ
saturating_add m n = min (m + n) (2 ^ 64 - 1)

-- Fields 14 and 15 of `stat`, the twelfth and the thirteenth behind the last parenthesis
abbrev jiffies_of : List Text → Option ℕ
jiffies_of fields = and_then (get_elem? fields 11) λ utime. and_then (get_elem? fields 12) λ stime.
    and_then (parse_u64 utime) λ u. and_then (parse_u64 stime) λ s. some (saturating_add u s)

-- `parse_cpu_jiffies`; `trim_start` takes no part of a field.
unfoldable pub parse_cpu_jiffies : Text → Option ℕ
parse_cpu_jiffies stat =
    and_then (after_last b')' stat) λ fields. jiffies_of (split_whitespace fields)

-- `sample_self`
unfoldable pub sample_self : ℕ → Option Text → Option Text → Option SelfMetrics
unfolding parse_vm_rss_kib parse_cpu_jiffies
sample_self pid status stat = and_then (and_then status parse_vm_rss_kib) λ rss_kib.
    and_then (and_then stat parse_cpu_jiffies)
      λ cpu_jiffies. some (record { pid = pid; rss_kib = rss_kib; cpu_jiffies = cpu_jiffies })

-- The time is that of the two fields, the sum at most the largest u64, whatever parentheses and blanks the name of the command holds.
pub parse_cpu_jiffies_fields :
    (before fields : Text) (u s : ℕ)
    → contains b')' fields ≡ false
    → get_elem? (split_whitespace fields) 11 ≡ some (show_nat u)
    → get_elem? (split_whitespace fields) 12 ≡ some (show_nat s)
    → u ≤ 2 ^ 64 - 1
    → s ≤ 2 ^ 64 - 1
    → parse_cpu_jiffies (before ++ b')' ∷ fields) ≡ some (min (u + s) (2 ^ 64 - 1))
unfolding parse_cpu_jiffies
parse_cpu_jiffies_fields before fields u s h e f k l =
    rw
      (
        after_last-append b')' before fields h,
        e,
        f,
        parse_uint-show_nat (2 ^ 64 - 1) u k,
        parse_uint-show_nat (2 ^ 64 - 1) s l,
      )
      refl
