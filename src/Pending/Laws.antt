-- ===== src/Pending/Laws.antt =====
-- The pending table keeps its bound, hands each verdict out once, and never one that is stale.
use inter_fire.Prelude.{
  ℕ, ◌-◌, ◌≤◌, ◌<◌, ◌≡◌, ◌≢◌, ◌⊎◌, ◌∙◌, ap, true, false, none, some, List, [], ◌∷◌, ◌++◌, arith,
  ==_iff, get, remove, insert, has, length, length-remove-le, get-remove, length-store,
  store-IsOrdered, get-store_self, get-store_room, store_full, keys-remove-IsNodup, IsCovered,
  IsOrdered,
}
use inter_fire.Pending.{
  Verdict, DestKey, eq_dest_key, PendingEntry, PendingTable, expire, insert_expired, insert_verdict,
  take, verdict_of, new,
}
use inter_fire.Pending.Expiry.{expire-IsOrdered, get-expire, fresh_of, length-expire_loop-le}

pub record IsValid (t : PendingTable) : Type 0 where
  pub positive : 0 < t.capacity
  pub bounded : length t.entries ≤ t.capacity
  pub covered : IsCovered t.entries t.order

-- The same with the order exact, as it is behind `expire`.
record IsExact (t : PendingTable) : Type 0 where
  positive : 0 < t.capacity
  bounded : length t.entries ≤ t.capacity
  ordered : IsOrdered t.entries t.order

expire-IsExact : (now : ℕ) (t : PendingTable) → IsValid t → IsExact (expire now t)
expire-IsExact now t v = record {
  positive = unfold expire in v.positive;
  bounded =
      unfold expire in omega (arith, length-expire_loop-le now t.ttl t.entries t.order, v.bounded);
  ordered = expire-IsOrdered now t v.covered;
}

insert_expired-IsExact :
    (now : ℕ) (key : DestKey) (verdict : Verdict) (t : PendingTable)
    → IsExact t
    → IsExact (insert_expired now key verdict t)
unfolding insert_expired
insert_expired-IsExact now key verdict t x = record {
  positive = x.positive;
  bounded = length-store t.capacity key _ t.entries t.order x.positive x.bounded;
  ordered = store-IsOrdered t.capacity key _ t.entries t.order x.ordered;
}

-- Inserting keeps the table within its capacity and its order exact.
pub insert_verdict-IsValid :
    (now now' : ℕ) (key : DestKey) (verdict : Verdict) (t : PendingTable)
    → IsValid t
    → IsValid (insert_verdict now now' key verdict t)
      × IsOrdered
          (insert_verdict now now' key verdict t).entries
          (insert_verdict now now' key verdict t).order
unfolding insert_verdict
insert_verdict-IsValid now now' key verdict t v =
    let x = insert_expired-IsExact now' key verdict (expire now t) (expire-IsExact now t v) in
    (record { positive = x.positive; bounded = x.bounded; covered = x.ordered.covered }, x.ordered)

-- Taking keeps the table valid, returns the verdict of the key exactly if it is fresh, and leaves
-- nothing for the key.
pub take_lem :
    (now : ℕ) (key : DestKey) (t : PendingTable)
    → IsValid t
    → IsValid (take now key t).1
      × ((take now key t).0 ≡ verdict_of (fresh_of now t.ttl (get key t.entries)))
      × (get key (take now key t).1.entries ≡ none)
unfolding take
take_lem now key t v =
    let x = expire-IsExact now t v in
    (
      record {
        positive = x.positive;
        bounded = omega (arith, length-remove-le key (expire now t).entries, x.bounded);
        covered = record {
          unique = keys-remove-IsNodup key (expire now t).entries x.ordered.covered.unique;
          once = x.ordered.covered.once;
          covers = λ j.
              grind (arith, get-remove key j (expire now t).entries, x.ordered.covered.covers j);
        };
      },
      ap verdict_of (get-expire now t key v.covered),
      ground (arith, get-remove key key (expire now t).entries, ==_iff key key),
    )

-- A verdict that was inserted is taken while it is fresh, whatever the table held.
pub take-insert_verdict :
    (now now' later : ℕ) (key : DestKey) (verdict : Verdict) (t : PendingTable)
    → IsValid t
    → later - now' ≤ t.ttl
    → (take later key (insert_verdict now now' key verdict t)).0 ≡ some verdict
take-insert_verdict now now' later key verdict t v h =
    let t' = insert_verdict now now' key verdict t in
    let entry : PendingEntry = record { verdict = verdict; inserted_at = now' } in
    let stored : get key t'.entries ≡ some entry =
      unfold insert_verdict insert_expired expire in
      get-store_self t.capacity key entry (expire now t).entries (expire now t).order in
    (take_lem later key t' (insert_verdict-IsValid now now' key verdict t v).0).1
    ∙ ap (λ o. verdict_of (fresh_of later t'.ttl o)) stored
    ∙ (unfold insert_verdict insert_expired expire in ground arith)

-- While the table has room, or knows the inserted key, no fresh verdict of another key is lost or changed.
pub get-insert_verdict :
    (now now' : ℕ) (key other : DestKey) (verdict : Verdict) (t : PendingTable)
    → IsValid t
    → key ≢ other
    → (has key (expire now t).entries ≡ true) ⊎ (length (expire now t).entries < t.capacity)
    → get other (insert_verdict now now' key verdict t).entries
      ≡ fresh_of now t.ttl (get other t.entries)
unfolding insert_verdict insert_expired expire
get-insert_verdict now now' key other verdict t v ne room =
    let fresh : PendingEntry = record { verdict = verdict; inserted_at = now' } in
    let s = expire now t in
    get-store_room s.capacity key fresh s.entries s.order other room
    ∙ ground (arith, ==_iff key other, get-expire now t other v.covered)

-- A new key in a full table evicts the oldest entry and no other.
pub insert_verdict_full :
    (now now' : ℕ) (key oldest : DestKey) (verdict : Verdict) (t : PendingTable)
    (rest : List DestKey)
    → IsValid t
    → length (expire now t).entries ≡ t.capacity
    → (expire now t).order ≡ oldest ∷ rest
    → has key (expire now t).entries ≡ false
    → ((insert_verdict now now' key verdict t).entries
        ≡ insert key
            (record { verdict = verdict; inserted_at = now' })
            (remove oldest (expire now t).entries))
      × ((insert_verdict now now' key verdict t).order ≡ rest ++ key ∷ [])
unfolding insert_verdict insert_expired expire
insert_verdict_full now now' key oldest verdict t rest v full front new =
    let x = expire-IsExact now t v in
    let there : has oldest (expire now t).entries ≡ true =
      x.ordered.live oldest (rw front (ground (arith, ==_iff oldest oldest))) in
    let e =
      store_full t.capacity key (record { verdict = verdict; inserted_at = now' })
        (expire now t).entries oldest rest full there new in
    rw front (ap (λ p. p.0) e, ap (λ p. p.1) e)
