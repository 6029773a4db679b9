-- ===== src/Recent/Laws.antt =====
-- The table of recent destinations stays within both capacities and shows what was recorded.
use inter_fire.Prelude.{
  ℕ, ◌≤◌, ◌<◌, ◌≡◌, refl, inl, inr, Bool, true, false, Option, none, some, List, [], ◌∷◌, ◌++◌,
  arith, any, eq_nat, eq_pair, ◌==◌, ==_iff, get, has, evict, length, length-append, Bool-cases,
  Option-cases, evict-has, ◌||◌, is_some, ==_self, IsOrdered, evict-IsOrdered, push-IsOrdered,
  update-IsOrdered, length-evict, length-insert-le, length-insert-has, get-insert, get-evict, In,
}
use inter_fire.Recent.{
  RecentDest, ProcessKey, RecentConnects, same_dest, update_row, trim_queue, record_in, with_queue,
  record_dest, for_process,
}

-- No two rows of a queue have one destination.
abbrev pub HasDistinctRows : List RecentDest → Type 0
HasDistinctRows [] = Unit
HasDistinctRows (row ∷ queue) =
    (any (λ other. same_dest row other) queue ≡ false) × HasDistinctRows queue

pub record IsValid (r : RecentConnects) : Type 0 where
  pub positive : 0 < r.capacity_keys
  pub positive_key : 0 < r.per_key
  pub bounded : length r.entries ≤ r.capacity_keys
  pub ordered : IsOrdered r.entries r.order
  pub queues :
      (key : ProcessKey) (queue : List RecentDest)
      → get key r.entries ≡ some queue
      → (length queue ≤ r.per_key) × HasDistinctRows queue

-- `row` has the destination of a row of `queue`.
abbrev shown : RecentDest → List RecentDest → Bool
shown row queue = any (λ other. same_dest row other) queue

shown-update_row :
    (dest row : RecentDest) (queue updated : List RecentDest)
    → update_row dest queue ≡ some updated
    → shown row updated ≡ shown row queue
unfolding update_row
shown-update_row dest row [] updated h = cc
shown-update_row dest row (r ∷ queue) updated h = elim (Option-cases (update_row dest queue)) [
  | inl e ↦ ground arith
  | inr (q, e) ↦ ground (arith, shown-update_row dest row queue q e)
]

length-update_row :
    (dest : RecentDest) (queue updated : List RecentDest)
    → update_row dest queue ≡ some updated
    → length updated ≡ length queue
unfolding update_row
length-update_row dest [] updated h = cc
length-update_row dest (r ∷ queue) updated h = elim (Option-cases (update_row dest queue)) [
  | inl e ↦ ground arith
  | inr (q, e) ↦ ground (arith, length-update_row dest queue q e)
]

distinct-update_row :
    (dest : RecentDest) (queue updated : List RecentDest)
    → update_row dest queue ≡ some updated
    → HasDistinctRows queue
    → HasDistinctRows updated
unfolding update_row
distinct-update_row dest [] updated h d = cc
distinct-update_row dest (r ∷ queue) updated h d = elim (Option-cases (update_row dest queue)) [
  | inl e ↦ ground arith
  | inr (q, e) ↦
      ground (arith, distinct-update_row dest queue q e d.1, shown-update_row dest r queue q e)
]

member-update_row :
    (dest : RecentDest) (queue updated : List RecentDest)
    → update_row dest queue ≡ some updated
    → In dest updated
unfolding update_row
member-update_row dest [] updated h = cc
member-update_row dest (r ∷ queue) updated h = elim (Option-cases (update_row dest queue)) [
  | inl e ↦ ground arith
  | inr (q, e) ↦ ground (arith, member-update_row dest queue q e)
]

shown_of_none :
    (dest : RecentDest) (queue : List RecentDest)
    → update_row dest queue ≡ none
    → any (λ row. same_dest row dest) queue ≡ false
unfolding update_row
shown_of_none dest [] h = refl
shown_of_none dest (r ∷ queue) h = ground (arith, shown_of_none dest queue)

any-trim_queue :
    (p : RecentDest → Bool) (per_key : ℕ) (queue : List RecentDest)
    → any p queue ≡ false
    → any p (trim_queue per_key queue) ≡ false
unfolding trim_queue
any-trim_queue p per_key [] h = h
any-trim_queue p per_key (r ∷ queue) h = ground (arith, any-trim_queue p per_key queue)

length-trim_queue :
    (per_key : ℕ) (queue : List RecentDest)
    → 0 < per_key
    → length (trim_queue per_key queue) < per_key
unfolding trim_queue
length-trim_queue per_key [] h = h
length-trim_queue per_key (r ∷ queue) h = ground (arith, length-trim_queue per_key queue h)

distinct-trim_queue :
    (per_key : ℕ) (queue : List RecentDest)
    → HasDistinctRows queue
    → HasDistinctRows (trim_queue per_key queue)
unfolding trim_queue
distinct-trim_queue per_key [] d = tt
distinct-trim_queue per_key (r ∷ queue) d = ground (arith, distinct-trim_queue per_key queue d.1)

any-push :
    (p : RecentDest → Bool) (dest : RecentDest) (queue : List RecentDest)
    → any p (queue ++ dest ∷ []) ≡ (any p queue || p dest)
any-push p dest [] = ground arith
any-push p dest (r ∷ queue) = ground (arith, any-push p dest queue)

distinct-push :
    (dest : RecentDest) (queue : List RecentDest)
    → HasDistinctRows queue
    → any (λ row. same_dest row dest) queue ≡ false
    → HasDistinctRows (queue ++ dest ∷ [])
distinct-push dest [] d h = (refl, tt)
distinct-push dest (r ∷ queue) d h =
    ground (arith, distinct-push dest queue d.1, any-push (λ other. same_dest r other) dest queue)

In-push : (dest : RecentDest) (queue : List RecentDest) → In dest (queue ++ dest ∷ [])
In-push dest [] = inl refl
In-push dest (r ∷ queue) = inr (In-push dest queue)

record_in_lem :
    (per_key : ℕ) (dest : RecentDest) (queue : List RecentDest)
    → 0 < per_key
    → length queue ≤ per_key
    → HasDistinctRows queue
    → (length (record_in per_key dest queue) ≤ per_key)
      × HasDistinctRows (record_in per_key dest queue)
      × In dest (record_in per_key dest queue)
unfolding record_in
record_in_lem per_key dest queue p h d = elim (Option-cases (update_row dest queue)) [
  | inr (q, e) ↦
      rw (e, record_in)
        (
          omega (arith, length-update_row dest queue q e, h),
          distinct-update_row dest queue q e d,
          member-update_row dest queue q e,
        )
  | inl e ↦
      rw (e, record_in)
        (
          omega (
            arith,
            length-append {0} (trim_queue per_key queue) (dest ∷ []),
            length-trim_queue per_key queue p,
          ),
          distinct-push dest (trim_queue per_key queue) (distinct-trim_queue per_key queue d) (
              any-trim_queue (λ row. same_dest row dest) per_key queue
                (shown_of_none dest queue e)),
          In-push dest (trim_queue per_key queue),
        )
]

with_queue-IsValid :
    (key : ProcessKey) (r : RecentConnects)
    → IsValid r
    → IsValid (with_queue key r) × (has key (with_queue key r).entries ≡ true)
unfolding with_queue
with_queue-IsValid key r v = elim (Bool-cases (has key r.entries)) [
  | inl old ↦ rw old (v, old)
  | inr new ↦
      let (entries, order) = evict r.capacity_keys r.entries r.order in
      let room = length-evict r.capacity_keys r.entries r.order v.positive in
      let gone : has key entries ≡ false = evict-has r.capacity_keys key [] r.entries r.order new in
      rw new (
        record {
          positive = v.positive;
          positive_key = v.positive_key;
          bounded = omega (arith, length-insert-le key [] entries, room);
          ordered =
              push-IsOrdered key [] entries order gone
                (evict-IsOrdered r.capacity_keys r.entries r.order v.ordered);
          queues = λ other queue h. elim (Bool-cases (key == other)) [
            | inl same ↦ ground (arith, get-insert key other [] entries)
            | inr apart ↦ v.queues other queue (
                get-evict r.capacity_keys r.entries r.order other queue
                  (ground (arith, get-insert key other [] entries)))
          ];
        },
        ground (arith, get-insert key key [] entries, ==_iff key key),
      )
]

some_of : (o : Option (List RecentDest)) → is_some o ≡ true → (q : List RecentDest) × (o ≡ some q)
some_of none h = cc
some_of (some q) h = (q, refl)

-- Recording keeps the table within its capacity of processes and every queue within its length and
-- without repeated destinations; and the process then shows the recorded destination with the
-- recorded verdict.
pub record_dest-IsValid :
    (pid start_ticks : ℕ) (dest : RecentDest) (r : RecentConnects)
    → IsValid r
    → IsValid (record_dest pid start_ticks dest r)
      × In dest (for_process pid start_ticks (record_dest pid start_ticks dest r))
unfolding record_dest for_process
record_dest-IsValid pid start_ticks dest recent valid =
    let key : ProcessKey = (pid, start_ticks) in
    let r = with_queue key recent in
    let (v, there) = with_queue-IsValid key recent valid in
    let (queue, found) = some_of (get key r.entries) there in
    let (short, distinct, member) =
      record_in_lem r.per_key dest queue v.positive_key (v.queues key queue found).0
        (v.queues key queue found).1 in
    let queue' = record_in r.per_key dest queue in
    rw found (
      record {
        positive = v.positive;
        positive_key = v.positive_key;
        bounded = omega (arith, length-insert-has key queue' r.entries there, v.bounded);
        ordered = update-IsOrdered key queue' r.entries r.order there v.ordered;
        queues = λ other q h. elim (Bool-cases (key == other)) [
          | inl same ↦
              let e : q ≡ queue' = ground (arith, get-insert key other queue' r.entries) in
              rw e (short, distinct)
          | inr apart ↦ v.queues other q (ground (arith, get-insert key other queue' r.entries))
        ];
      },
      rw (get-insert key key queue' r.entries, ==_self key) member,
    )
