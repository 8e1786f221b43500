-- ===== src/MetaCache/Expiry.antt =====
-- How long an entry of the cache of crates/star9-fs/src/metacache.rs answers, and how often it is
-- refreshed.
use star.Base.{
  ℕ, ◌+◌, ◌/◌, ◌<◌, ◌≡◌, ◌≢◌, refl, ap, sym, ◌∙◌, Bool, true, false, not, ◌&&◌, leb, ltb, ◌==◌,
  none, some, arith, if◌then◌else◌, Option, Bool-cases, inl, inr, List, [], ◌∷◌,
}
use star.MetaCache.Keys.{CacheKey, get, insert, remove, get-insert, get-remove, key_eq, key_eq_refl}
use star.MetaCache.{
  Cache, CacheEntry, CachePayload, is_due, use_entry, use_found, get_cached, is_error, entry_of,
  set_cached,
}

-- How long a payload is kept: an error for half of the time.
abbrev pub lifetime : ℕ → CachePayload → ℕ
lifetime ttl payload = if is_error payload then ttl / 2 else ttl

get_cached-found :
    (key : CacheKey) (now : ℕ) (cache : Cache) (entry : CacheEntry)
    → get key cache ≡ some entry
    → get_cached key now cache ≡ use_entry key now entry cache
unfolding get_cached use_found
get_cached-found key now cache entry h = ap (λ o. use_found key now o cache) h

get-inserted :
    (key : CacheKey) (v : CacheEntry) (cache : Cache) → get key (insert key v cache) ≡ some v
get-inserted key v cache = rw (get-insert key key v cache, key_eq_refl key) refl

-- What was stored is answered for its lifetime and not a moment longer, and from half of the time on a
-- success asks for a refresh. With no time to live nothing is stored.
pub get_cached-set_cached :
    (ttl t0 t1 : ℕ) (key : CacheKey) (payload : CachePayload) (cache : Cache)
    → (0 < ttl
        → (get_cached key t1 (set_cached ttl key payload t0 cache)).0 ≡ (
            if ltb t1 (t0 + lifetime ttl payload)
            then some (payload, not (is_error payload) && leb (t0 + ttl / 2) t1)
            else none))
      × (set_cached 0 key payload t0 cache ≡ cache)
unfolding set_cached entry_of use_entry is_due
get_cached-set_cached ttl t0 t1 key payload cache = (
  λ h.
      let e : (ttl == 0) ≡ false = ground arith in
      rw e (
        ap (λ r. r.0)
          (get_cached-found key t1 (insert key (entry_of ttl t0 payload) cache)
            (entry_of ttl t0 payload) (get-inserted key _ cache))
        ∙ ground arith),
  refl,
)

abbrev marked : CacheEntry → CacheEntry
marked entry = record entry { refreshing = true }

use_entry-asks :
    (key : CacheKey) (now : ℕ) (entry : CacheEntry) (cache : Cache) {p : CachePayload}
    → (use_entry key now entry cache).0 ≡ some (p, true)
    → (use_entry key now entry cache).1 ≡ insert key (marked entry) cache
unfolding use_entry
use_entry-asks key now entry cache h = ground arith

-- What is stored for the key waits for its refresh.
Waits : CacheKey → Cache → Type 0
Waits key cache = (entry : CacheEntry) → get key cache ≡ some entry → entry.refreshing ≡ true

insert-Waits :
    (key j : CacheKey) (entry : CacheEntry) (cache : Cache)
    → Waits key cache
    → Waits key (insert j (marked entry) cache)
unfolding Waits
insert-Waits key j entry cache h e p =
    let q = rw (get-insert j key (marked entry) cache) at p in
    elim (Bool-cases (key_eq j key)) [
      | inl s ↦ let r : some (marked entry) ≡ some e = rw s at q in cc r
      | inr s ↦ h e (rw s at q)
    ]

remove-Waits : (key j : CacheKey) (cache : Cache) → Waits key cache → Waits key (remove j cache)
unfolding Waits
remove-Waits key j cache h e p =
    let q = rw (get-remove j key cache) at p in
    elim (Bool-cases (key_eq j key)) [
      | inl s ↦ let r : none ≡ some e = rw s at q in absurd (cc r)
      | inr s ↦ h e (rw s at q)
    ]

if-Waits :
    (key : CacheKey) (b : Bool) (c d : Cache)
    → Waits key c
    → Waits key d
    → Waits key (if b then c else d)
if-Waits key true c d h k = h
if-Waits key false c d h k = k

use_found-Waits :
    (key j : CacheKey) (now : ℕ) (o : Option CacheEntry) (cache : Cache)
    → Waits key cache
    → Waits key (use_found j now o cache).1
unfolding use_found use_entry
use_found-Waits key j now none cache h = h
use_found-Waits key j now (some entry) cache h = elim (Bool-cases (leb entry.expires_at now)) [
  | inl x ↦ rw x (remove-Waits key j cache h)
  | inr x ↦ rw x (if-Waits key _ _ cache (insert-Waits key j entry cache h) h)
]

-- Lookups of keys at instants, one after the other.
abbrev pub looked_up : List (CacheKey × ℕ) → Cache → Cache
looked_up [] cache = cache
looked_up ((key, now) ∷ lookups) cache = looked_up lookups (get_cached key now cache).1

looked_up-Waits :
    (key : CacheKey) (lookups : List (CacheKey × ℕ)) (cache : Cache)
    → Waits key cache
    → Waits key (looked_up lookups cache)
unfolding get_cached
looked_up-Waits key [] cache h = h
looked_up-Waits key ((j, now) ∷ lookups) cache h =
    looked_up-Waits key lookups (get_cached j now cache).1
      (use_found-Waits key j now (get j cache) cache h)

use_found-asks :
    (key : CacheKey) (now : ℕ) (o : Option CacheEntry) (cache : Cache) {p : CachePayload}
    → (use_found key now o cache).0 ≡ some (p, true)
    → Waits key (use_found key now o cache).1
unfolding use_found Waits
use_found-asks key now none cache h = cc h
use_found-asks key now (some entry) cache h = rw (use_entry-asks key now entry cache h) (λ e p.
    let r : some (marked entry) ≡ some e = sym (get-inserted key (marked entry) cache) ∙ p in cc r)

use_found-waiting :
    (key : CacheKey) (now : ℕ) (o : Option CacheEntry) (cache : Cache) {q : CachePayload}
    → ((entry : CacheEntry) → o ≡ some entry → entry.refreshing ≡ true)
    → (use_found key now o cache).0 ≢ some (q, true)
unfolding use_found use_entry
use_found-waiting key now none cache h k = cc k
use_found-waiting key now (some entry) cache h k = ground (arith, h entry refl, k)

-- A lookup that asks for a refresh is the only one of its key that does, as long as nothing but lookups
-- follows: any number of them, of any keys and at any instants. (A refresh that fails, and what stores or
-- drops the entry, end that.)
pub get_cached-refreshing :
    (key : CacheKey) (t1 t2 : ℕ) (lookups : List (CacheKey × ℕ)) (cache : Cache)
    {p q : CachePayload}
    → (get_cached key t1 cache).0 ≡ some (p, true)
    → (get_cached key t2 (looked_up lookups (get_cached key t1 cache).1)).0 ≢ some (q, true)
unfolding get_cached Waits
get_cached-refreshing key t1 t2 lookups cache h = use_found-waiting key t2 _ _ (
    looked_up-Waits key lookups (use_found key t1 (get key cache) cache).1
      (use_found-asks key t1 (get key cache) cache h))
