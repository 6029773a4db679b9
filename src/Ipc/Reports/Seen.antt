-- ===== src/Ipc/Reports/Seen.antt =====
-- What a client should see of the observed processes, independently of the reports.
use inter_fire.Prelude.{
  ℕ, ◌/◌, ◌%◌, ◌^◌, ◌≡◌, ◌∙◌, refl, ap, Option, none, some, List, [], ◌∷◌, ◌++◌, map, reverse, Text,
  lit, get, join, show_nat, le_bytes, eq_nat, eq_pair, arith, append_assoc,
}
use inter_fire.Rules.{RuleSet, Verdict, Protocol, Direction, v4, allow, deny, prompt, verdict_for}
use inter_fire.Recent.{RecentDest, RecentConnects, for_process, queue_of}
use inter_fire.Process.{ProcessIdentity}
use inter_fire.Proto.Rows.{ProcessRow}
use inter_fire.Ipc.Reports.{process_row, dest_text, dotted, verdict_word, any_connection}

abbrev pub word_of : Verdict → Text
word_of allow = lit "allow"
word_of deny = lit "deny"
word_of prompt = lit "prompt"

-- The octet of an address in front of `scale` smaller addresses
abbrev pub octet : ℕ → ℕ → Text
octet scale ipv4 = show_nat (ipv4 / scale % 256)

-- `a.b.c.d:port/verdict`
abbrev pub destination : RecentDest → Text
destination dest =
    octet (2 ^ 24) dest.ipv4
    ++ (lit "."
        ++ (octet (2 ^ 16) dest.ipv4
            ++ (lit "."
                ++ (octet (2 ^ 8) dest.ipv4
                    ++ (lit "."
                        ++ (octet 1 dest.ipv4
                            ++ (lit ":" ++ (show_nat dest.port ++ (lit "/" ++ dest.verdict)))))))))

abbrev pub destinations : List RecentDest → Text
destinations [] = []
destinations (dest ∷ []) = destination dest
destinations (dest ∷ next ∷ rest) = destination dest ++ (lit "+" ++ destinations (next ∷ rest))

abbrev pub recorded : Option (List RecentDest) → List RecentDest
recorded none = []
recorded (some dests) = dests

-- The row of a process with its recent destinations: the verdict is that of the rules for a TCP connection
-- that the program opens to no address and no port.
abbrev pub row_seen : RuleSet → RecentConnects → ProcessIdentity → ProcessRow
row_seen rules recent identity = record {
  pid = identity.pid;
  start_ticks = identity.start_ticks;
  uid = identity.uid;
  executable = identity.executable;
  cmdline = join (lit " ") identity.command_line;
  verdict = word_of (
      verdict_for rules (record {
        executable = identity.executable;
        protocol = Protocol.tcp;
        direction = Direction.outbound;
        address = v4 0 0 0 0;
        hostname = none;
        port = 0;
      }));
  ports = destinations (recorded (get (identity.pid, identity.start_ticks) recent.entries));
}

verdict_word-word_of : (v : Verdict) → verdict_word v ≡ word_of v
verdict_word-word_of allow = refl
verdict_word-word_of deny = refl
verdict_word-word_of prompt = refl

octets_of :
    (n : ℕ)
    → reverse (le_bytes 4 n)
      ≡ n / 2 ^ 24 % 256 ∷ n / 2 ^ 16 % 256 ∷ n / 2 ^ 8 % 256 ∷ n / 1 % 256 ∷ []
octets_of n =
    let top : n / 256 / 256 / 256 ≡ n / 2 ^ 24 = omega arith in
    let second : n / 256 / 256 ≡ n / 2 ^ 16 = omega arith in
    let low : n ≡ n / 1 = omega arith in
    λ i. top i % 256 ∷ second i % 256 ∷ n / 256 % 256 ∷ low i % 256 ∷ []

-- Four texts with dots between, and what follows them
dotted_append :
    (a b c d rest : Text)
    → (a ++ (b'.' ∷ (b ++ (b'.' ∷ (c ++ (b'.' ∷ d)))))) ++ rest
      ≡ a ++ (b'.' ∷ (b ++ (b'.' ∷ (c ++ (b'.' ∷ (d ++ rest))))))
dotted_append a b c d rest =
    append_assoc a _ rest
    ∙ ap (λ t. a ++ (b'.' ∷ t))
        (append_assoc b _ rest ∙ ap (λ t. b ++ (b'.' ∷ t)) (append_assoc c (b'.' ∷ d) rest))

dest_text-eq : (dest : RecentDest) → dest_text dest ≡ destination dest
unfolding join
dest_text-eq dest =
    ap (λ octets. dotted octets ++ (lit ":" ++ (show_nat dest.port ++ (lit "/" ++ dest.verdict))))
      (octets_of dest.ipv4)
    ∙ dotted_append (octet (2 ^ 24) dest.ipv4) (octet (2 ^ 16) dest.ipv4) (octet (2 ^ 8) dest.ipv4)
        (octet 1 dest.ipv4) (lit ":" ++ (show_nat dest.port ++ (lit "/" ++ dest.verdict)))

join-destinations :
    (dests : List RecentDest) → join (lit "+") (map dest_text dests) ≡ destinations dests
unfolding join
join-destinations [] = refl
join-destinations (dest ∷ []) = dest_text-eq dest
join-destinations (dest ∷ next ∷ rest) =
    λ i. dest_text-eq dest i ++ (lit "+" ++ join-destinations (next ∷ rest) i)

queue_of-recorded : (o : Option (List RecentDest)) → queue_of o ≡ recorded o
queue_of-recorded none = refl
queue_of-recorded (some dests) = refl

pub process_row-eq :
    (rules : RuleSet) (recent : RecentConnects) (identity : ProcessIdentity)
    → process_row rules recent identity ≡ row_seen rules recent identity
unfolding for_process
process_row-eq rules recent identity =
    let found = queue_of-recorded (get (identity.pid, identity.start_ticks) recent.entries) in
    λ i. record {
      pid = identity.pid;
      start_ticks = identity.start_ticks;
      uid = identity.uid;
      executable = identity.executable;
      cmdline = join (lit " ") identity.command_line;
      verdict = verdict_word-word_of (verdict_for rules (any_connection identity.executable)) i;
      ports =
          (join-destinations (for_process identity.pid identity.start_ticks recent)
              ∙ ap destinations found)
            i;
    }
