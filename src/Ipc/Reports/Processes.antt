-- ===== src/Ipc/Reports/Processes.antt =====
-- The list of the processes, from the daemon to a client.
use inter_fire.Prelude.{
  ℕ, ◌-◌, ◌^◌, ◌≡◌, ◌∙◌, ap, get, eq_nat, eq_pair, ◌≤◌, refl, false, some, List, [], ◌∷◌, map,
  reverse, Text, lit, All, All-append, IsFree, IsLine, is_eol, nat_eq, join, show_nat, digits-All,
  show_nat-IsDigits, le_bytes, arith,
}
use inter_fire.Rules.{RuleSet, Verdict, allow, deny, prompt, verdict_for}
use inter_fire.Recent.{RecentDest, RecentConnects, for_process}
use inter_fire.Process.{ProcessIdentity, ProcessCache}
use inter_fire.Process.Laws.{key_of, list-order}
use inter_fire.Ipc.Reports.Seen.{row_seen, process_row-eq}
use inter_fire.Proto.Client.{ok}
use inter_fire.Proto.Client.Lists.{join-All, All-map, All-mono}
use inter_fire.Proto.Response.{Response, encode}
use inter_fire.Proto.Rows.{parse_processes, encode_process_row}
use inter_fire.Proto.Rows.Processes.{IsProcess, parse_processes-encode}
use inter_fire.Ipc.Reports.{
  process_list, process_row, dest_text, dotted, verdict_word, any_connection,
}

-- A word that is written into a column as it is
abbrev pub IsColumn : Text → Type 0
IsColumn s = IsLine s × IsFree b'|' s × IsFree b';' s

-- What the table of processes holds for a process, as far as the list shows it
pub record IsObserved (recent : RecentConnects) (identity : ProcessIdentity) : Type 0 where
  pub pid : identity.pid ≤ 2 ^ 32 - 1
  pub start_ticks : identity.start_ticks ≤ 2 ^ 64 - 1
  pub uid : identity.uid ≤ 2 ^ 32 - 1
  pub executable : IsLine identity.executable
  pub command_line : All IsLine identity.command_line
  pub verdicts :
      All (λ dest. IsColumn dest.verdict) (for_process identity.pid identity.start_ticks recent)

-- A property of the characters that destinations are written with
module _ (P : ℕ → Type 0) (digit : (c : ℕ) → b'0' ≤ c → c ≤ b'9' → P c)
    (signs : All P (lit ".:/+")) where
  number-All : (n : ℕ) → All P (show_nat n)
  number-All n = digits-All P (show_nat n) digit (show_nat-IsDigits n)

  numbers-All : (ns : List ℕ) → All (All P) (map show_nat ns)
  numbers-All [] = tt
  numbers-All (n ∷ ns) = (number-All n, numbers-All ns)

  dest_text-All : (dest : RecentDest) → All P dest.verdict → All P (dest_text dest)
  dest_text-All dest h =
      let octets = reverse (le_bytes 4 dest.ipv4) in
      All-append P (dotted octets) _
        (join-All P b'.' (map show_nat octets) signs.0 (numbers-All octets))
        (signs.1.0, All-append P (show_nat dest.port) _ (number-All dest.port) (signs.1.1.0, h))

  ports-All :
      (dests : List RecentDest)
      → All (λ dest. All P dest.verdict) dests
      → All P (join (lit "+") (map dest_text dests))
  ports-All dests h =
      join-All P b'+' (map dest_text dests) signs.1.1.1.0
        (All-map (All P) (λ dest. All P dest.verdict) dest_text dest_text-All dests h)

verdict_word-IsColumn : (verdict : Verdict) → IsColumn (verdict_word verdict)
verdict_word-IsColumn allow = (
  (refl, (refl, (refl, (refl, (refl, tt))))),
  (refl, (refl, (refl, (refl, (refl, tt))))),
  (refl, (refl, (refl, (refl, (refl, tt))))),
)
verdict_word-IsColumn deny = (
  (refl, (refl, (refl, (refl, tt)))),
  (refl, (refl, (refl, (refl, tt)))),
  (refl, (refl, (refl, (refl, tt)))),
)
verdict_word-IsColumn prompt = (
  (refl, (refl, (refl, (refl, (refl, (refl, tt)))))),
  (refl, (refl, (refl, (refl, (refl, (refl, tt)))))),
  (refl, (refl, (refl, (refl, (refl, (refl, tt)))))),
)

ports-IsColumn :
    (dests : List RecentDest)
    → All (λ dest. IsColumn dest.verdict) dests
    → IsColumn (join (lit "+") (map dest_text dests))
ports-IsColumn dests h = (
  ports-All (λ c. is_eol c ≡ false) (λ c low high. ground arith) (refl, (refl, (refl, (refl, tt))))
      dests (All-mono (λ d. IsLine d.verdict) (λ d. IsColumn d.verdict) (λ d w. w.0) dests h),
  ports-All (λ c. nat_eq c b'|' ≡ false) (λ c low high. ground arith)
      (refl, (refl, (refl, (refl, tt)))) dests
      (All-mono (λ d. IsFree b'|' d.verdict) (λ d. IsColumn d.verdict) (λ d w. w.1) dests h),
  ports-All (λ c. nat_eq c b';' ≡ false) (λ c low high. ground arith)
      (refl, (refl, (refl, (refl, tt)))) dests
      (All-mono (λ d. IsFree b';' d.verdict) (λ d. IsColumn d.verdict) (λ d w. w.2) dests h),
)

process_row-IsProcess :
    (rules : RuleSet) (recent : RecentConnects) (identity : ProcessIdentity)
    → IsObserved recent identity
    → IsProcess (process_row rules recent identity)
process_row-IsProcess rules recent identity v = record {
  pid = v.pid;
  start_ticks = v.start_ticks;
  uid = v.uid;
  executable = v.executable;
  cmdline = join-All (λ c. is_eol c ≡ false) b' ' identity.command_line refl v.command_line;
  verdict = verdict_word-IsColumn (verdict_for rules (any_connection identity.executable));
  ports = ports-IsColumn (for_process identity.pid identity.start_ticks recent) v.verdicts;
}

-- A client sees the observed processes as they are: if the keys of the cache, oldest first, are those of some identities, each stored under its key, then from the frame of the list the client reads one row for each of them in that order, with its pid, start time, user and path, its command line joined by blanks, the word of the verdict that the rules give a TCP connection of the program to no address and port, and its recent destinations, each as the four octets, the port and the stored verdict; this holds if no lock is poisoned, the numbers fit their types, the paths and command lines are without line breaks, and the stored verdicts of the destinations are without line breaks, bars and semicolons.
pub parse_processes-process_list :
    (rules : RuleSet) (recent : RecentConnects) (cache : ProcessCache)
    (found : List ProcessIdentity)
    → cache.order ≡ map key_of found
    → All (λ identity. get (key_of identity) cache.entries ≡ some identity) found
    → All (IsObserved recent) found
    → parse_processes (encode (process_list false false false rules recent cache))
      ≡ ok (map (row_seen rules recent) found)
unfolding process_list encode
parse_processes-process_list rules recent cache found e h v =
    ap
      (λ identities. parse_processes (
        encode (
          Response.processes
            (join (lit ";") (map encode_process_row (map (process_row rules recent) identities))))))
      (list-order cache found e h)
    ∙ parse_processes-encode (map (process_row rules recent) found) (
        All-map IsProcess (IsObserved recent) (process_row rules recent)
          (process_row-IsProcess rules recent) found v)
    ∙ ap ok (rows_seen found)
  where
    rows_seen :
        (identities : List ProcessIdentity)
        → map (process_row rules recent) identities ≡ map (row_seen rules recent) identities
    rows_seen [] = refl
    rows_seen (identity ∷ identities) =
        λ i. process_row-eq rules recent identity i ∷ rows_seen identities i
