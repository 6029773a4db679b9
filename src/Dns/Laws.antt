-- ===== src/Dns/Laws.antt =====
-- A name is returned exactly while it is fresh, and the cache stays within its capacity.
use inter_fire.Prelude.{
  ℕ, ◌+◌, ◌≤◌, ◌<◌, ◌≡◌, ◌≢◌, ◌∙◌, ap, Bool, Bool-cases, inl, inr, true, false, refl, sym, Option,
  none, some, arith, Text, lower, eq_nat, if◌then◌else◌, leb, get, length, IsOrdered, get-sweep,
  sweep-IsOrdered, length-sweep-le, store-IsOrdered, length-store, get-store_self, get-store_other,
}
use inter_fire.Dns.{
  Entry, DnsCache, is_expired, expire, observe, put, instant_limit, or_default, name_of,
  hostname_for,
}

pub record IsValid (c : DnsCache) : Type 0 where
  pub positive : 0 < c.capacity
  pub bounded : length c.by_ip ≤ c.capacity
  pub ordered : IsOrdered c.by_ip c.order

pub expire-IsValid : (now : ℕ) (c : DnsCache) → IsValid c → IsValid (expire now c)
unfolding expire
expire-IsValid now c v = record {
  positive = v.positive;
  bounded = omega (arith, length-sweep-le (is_expired now) c.by_ip c.order, v.bounded);
  ordered = sweep-IsOrdered (is_expired now) c.by_ip c.order v.ordered.covered;
}

-- The entry of an address, unless it has expired.
abbrev pub fresh_of : ℕ → Option Entry → Option Entry
fresh_of now none = none
fresh_of now (some entry) = if leb entry.expires_at now then none else some entry

get-expire :
    (now ipv4 : ℕ) (c : DnsCache)
    → IsValid c
    → get ipv4 (expire now c).by_ip ≡ fresh_of now (get ipv4 c.by_ip)
unfolding expire
get-expire now ipv4 c v =
    ground (arith, get-sweep (is_expired now) ipv4 c.by_ip c.order v.ordered.covered.unique)

-- Asking for a name keeps the cache valid and answers exactly with a name that has not expired.
pub hostname_for_lem :
    (now ipv4 : ℕ) (c : DnsCache)
    → IsValid c
    → IsValid (hostname_for now ipv4 c).1
      × ((hostname_for now ipv4 c).0 ≡ name_of (fresh_of now (get ipv4 c.by_ip)))
unfolding hostname_for
hostname_for_lem now ipv4 c v = (expire-IsValid now c v, ap name_of (get-expire now ipv4 c v))

put-IsValid :
    (expires_at : ℕ) (hostname : Text) (ipv4 : ℕ) (c : DnsCache)
    → IsValid c
    → IsValid (put expires_at hostname ipv4 c)
put-IsValid expires_at hostname ipv4 c v = record {
  positive = v.positive;
  bounded = length-store c.capacity ipv4 _ c.by_ip c.order v.positive v.bounded;
  ordered = store-IsOrdered c.capacity ipv4 _ c.by_ip c.order v.ordered;
}

choose-IsValid :
    (b : Bool) (x y : Bool × DnsCache) → IsValid x.1 → IsValid y.1 → IsValid (if b then x else y).1
choose-IsValid true x y v w = v
choose-IsValid false x y v w = w

-- An observation keeps the cache valid and within capacity, whether it returns or panics.
pub observe-IsValid :
    (now now' : ℕ) (hostname : Text) (ipv4 : ℕ) (ttl : Option ℕ) (c : DnsCache)
    → IsValid c
    → IsValid (observe now now' hostname ipv4 ttl c).1
unfolding observe
observe-IsValid now now' hostname ipv4 ttl c v =
    let x = expire-IsValid now c v in
    choose-IsValid (leb instant_limit (now' + or_default ttl (expire now c).default_ttl)) _ _ x (
      put-IsValid (now' + or_default ttl (expire now c).default_ttl) hostname ipv4 (expire now c) x)

-- What an observation leaves that returns
observe-put :
    (now now' : ℕ) (hostname : Text) (ipv4 : ℕ) (ttl : Option ℕ) (c : DnsCache)
    → now' + or_default ttl c.default_ttl < instant_limit
    → observe now now' hostname ipv4 ttl c
      ≡ (true, put (now' + or_default ttl c.default_ttl) hostname ipv4 (expire now c))
unfolding observe expire
observe-put now now' hostname ipv4 ttl c h =
    let fits : leb instant_limit (now' + or_default ttl c.default_ttl) ≡ false =
      ground (arith, h) in
    rw fits refl

-- An observation returns if the end of the lifetime is a time that the clock can show, and then the address has the observed name, in lower case, before its lifetime ends, and no name afterwards.
pub hostname_for-observe :
    (now now' later : ℕ) (hostname : Text) (ipv4 : ℕ) (ttl : Option ℕ) (c : DnsCache)
    → IsValid c
    → now' + or_default ttl c.default_ttl < instant_limit
    → ((observe now now' hostname ipv4 ttl c).0 ≡ true)
      × ((hostname_for later ipv4 (observe now now' hostname ipv4 ttl c).1).0 ≡ (
          if leb (now' + or_default ttl c.default_ttl) later then none else some (lower hostname)))
hostname_for-observe now now' later hostname ipv4 ttl c v h =
    let s = expire now c in
    let expires_at = now' + or_default ttl c.default_ttl in
    let entry : Entry = record { hostname = lower hostname; expires_at = expires_at } in
    let e = observe-put now now' hostname ipv4 ttl c h in
    let stored = get-store_self s.capacity ipv4 entry s.by_ip s.order in
    (
      ap (λ r. r.0) e,
      ap (λ r. (hostname_for later ipv4 r.1).0) e
          ∙ (hostname_for_lem later ipv4 (put expires_at hostname ipv4 s)
              (put-IsValid expires_at hostname ipv4 s (expire-IsValid now c v))).1
          ∙ ap (λ o. name_of (fresh_of later o)) stored
          ∙ ground arith,
    )

-- An observation that panics, because no clock can show the end of the lifetime, only drops what has expired.
pub observe_panics :
    (now now' : ℕ) (hostname : Text) (ipv4 : ℕ) (ttl : Option ℕ) (c : DnsCache)
    → instant_limit ≤ now' + or_default ttl c.default_ttl
    → observe now now' hostname ipv4 ttl c ≡ (false, expire now c)
unfolding observe expire
observe_panics now now' hostname ipv4 ttl c h =
    let late : leb instant_limit (now' + or_default ttl c.default_ttl) ≡ true = ground (arith, h) in
    rw late refl

-- The name of another address is never a new one.
pub get-observe_other :
    (now now' : ℕ) (hostname : Text) (ipv4 : ℕ) (ttl : Option ℕ) (c : DnsCache) (other : ℕ)
    (found : Entry)
    → IsValid c
    → ipv4 ≢ other
    → get other (observe now now' hostname ipv4 ttl c).1.by_ip ≡ some found
    → get other c.by_ip ≡ some found
unfolding observe
get-observe_other now now' hostname ipv4 ttl c other found v ne h =
    let s = expire now c in
    let expires_at = now' + or_default ttl s.default_ttl in
    let entry : Entry = record { hostname = lower hostname; expires_at = expires_at } in
    let found_in = λ (r : Bool × DnsCache). get other r.1.by_ip in
    let old : get other s.by_ip ≡ some found = elim (Bool-cases (leb instant_limit expires_at)) [
      | inl e ↦
          sym (
            ap (λ b. found_in (if b then (false, s) else (true, put expires_at hostname ipv4 s))) e)
          ∙ h
      | inr e ↦ get-store_other s.capacity ipv4 entry s.by_ip s.order other found ne (
          sym (
            ap (λ b. found_in (if b then (false, s) else (true, put expires_at hostname ipv4 s))) e)
          ∙ h)
    ] in
    ground (arith, get-expire now other c v)
