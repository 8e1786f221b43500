-- ===== src/MetaCache/Coherent.antt =====
-- What the steps of the cache of crates/star9-fs/src/metacache.rs do to entries that agree with the
-- file system.
use star.Base.{
  ℕ, ◌≡◌, refl, ap, sym, ◌∙◌, Bool, true, false, ◌==◌, leb, Bytes, Option, none, some,
  if◌then◌else◌, Bool-cases, inl, inr,
}
use star.Core.Path.{clean_path, trim_slashes}
use star.Core.Path.Clean.{valid_path-clean_path, clean_path_valid, trim_slashes-valid_path}
use star.MetaCache.Keys.{
  CacheKey, CacheKind, get, insert, remove, get-insert, get-remove, key_eq, key_eq→eq,
}
use star.MetaCache.{
  Cache, CacheEntry, CachePayload, normalize, key_of, use_entry, use_found, renew_found, get_cached,
  entry_of, set_cached, extended, extend_expiry,
}

-- The keys that the cache uses.
abbrev pub IsClean : CacheKey → Type 0
IsClean key = normalize key.path ≡ key.path

-- Every entry holds what its key stands for.
abbrev pub Agrees : (CacheKey → CachePayload) → Cache → Type 0
Agrees answer cache =
    (key : CacheKey) (entry : CacheEntry)
    → IsClean key
    → get key cache ≡ some entry
    → entry.payload ≡ answer key

pub key_of-IsClean : (path : Bytes) (kind : CacheKind) → IsClean (key_of path kind)
unfolding key_of normalize
key_of-IsClean path kind =
    let v = valid_path-clean_path (trim_slashes path) in
    ap clean_path (trim_slashes-valid_path _ v) ∙ clean_path_valid _ v

module _ (answer : CacheKey → CachePayload) where
  insert-Agrees :
      (key : CacheKey) (entry : CacheEntry) (cache : Cache)
      → entry.payload ≡ answer key
      → Agrees answer cache
      → Agrees answer (insert key entry cache)
  insert-Agrees key entry cache e h j found n p =
      let q = rw (get-insert key j entry cache) at p in
      elim (Bool-cases (key_eq key j)) [
        | inl s ↦
            let r : some entry ≡ some found = rw s at q in
            let t : entry ≡ found = cc r in
            ap (λ (x : CacheEntry). x.payload) (sym t) ∙ e ∙ ap answer (key_eq→eq key j s)
        | inr s ↦ h j found n (rw s at q)
      ]

  remove-Agrees :
      (key : CacheKey) (cache : Cache) → Agrees answer cache → Agrees answer (remove key cache)
  remove-Agrees key cache h j found n p =
      let q = rw (get-remove key j cache) at p in
      elim (Bool-cases (key_eq key j)) [
        | inl s ↦ let r : none ≡ some found = rw s at q in absurd (cc r)
        | inr s ↦ h j found n (rw s at q)
      ]

  if-Agrees :
      (b : Bool) (c d : Cache)
      → Agrees answer c
      → Agrees answer d
      → Agrees answer (if b then c else d)
  if-Agrees true c d h k = h
  if-Agrees false c d h k = k

  use_entry-Agrees :
      (key : CacheKey) (now : ℕ) (entry : CacheEntry) (cache : Cache)
      → entry.payload ≡ answer key
      → Agrees answer cache
      → Agrees answer (use_entry key now entry cache).1
        × ((p : CachePayload) (refresh : Bool)
            → (use_entry key now entry cache).0 ≡ some (p, refresh)
            → p ≡ answer key)
  unfolding use_entry
  use_entry-Agrees key now entry cache e h = elim (Bool-cases (leb entry.expires_at now)) [
    | inl x ↦ rw x (remove-Agrees key cache h, λ p refresh q. cc q)
    | inr x ↦ rw x (
      if-Agrees _ _ _ (insert-Agrees key (record entry { refreshing = true }) cache e h) h,
      λ p refresh q. cc (q, e),
    )
  ]

  use_found-Agrees :
      (key : CacheKey) (now : ℕ) (o : Option CacheEntry) (cache : Cache)
      → ((entry : CacheEntry) → o ≡ some entry → entry.payload ≡ answer key)
      → Agrees answer cache
      → Agrees answer (use_found key now o cache).1
        × ((p : CachePayload) (refresh : Bool)
            → (use_found key now o cache).0 ≡ some (p, refresh)
            → p ≡ answer key)
  unfolding use_found
  use_found-Agrees key now none cache e h = (h, λ p refresh q. cc q)
  use_found-Agrees key now (some entry) cache e h =
      use_entry-Agrees key now entry cache (e entry refl) h

  pub get_cached-Agrees :
      (key : CacheKey) (now : ℕ) (cache : Cache)
      → IsClean key
      → Agrees answer cache
      → Agrees answer (get_cached key now cache).1
        × ((p : CachePayload) (refresh : Bool)
            → (get_cached key now cache).0 ≡ some (p, refresh)
            → p ≡ answer key)
  unfolding get_cached
  get_cached-Agrees key now cache n h =
      use_found-Agrees key now (get key cache) cache (λ entry. h key entry n) h

  pub set_cached-Agrees :
      (ttl : ℕ) (key : CacheKey) (payload : CachePayload) (now : ℕ) (cache : Cache)
      → payload ≡ answer key
      → Agrees answer cache
      → Agrees answer (set_cached ttl key payload now cache)
  unfolding set_cached
  set_cached-Agrees ttl key payload now cache e h = elim (Bool-cases (ttl == 0)) [
    | inl z ↦ rw z h
    | inr z ↦ rw z (insert-Agrees key (entry_of ttl now payload) cache (unfold entry_of in e) h)
  ]

  renew_found-Agrees :
      (ttl : ℕ) (key : CacheKey) (now : ℕ) (o : Option CacheEntry) (cache : Cache)
      → ((entry : CacheEntry) → o ≡ some entry → entry.payload ≡ answer key)
      → Agrees answer cache
      → Agrees answer (renew_found ttl key now o cache)
  unfolding renew_found extended
  renew_found-Agrees ttl key now none cache e h = h
  renew_found-Agrees ttl key now (some entry) cache e h =
      insert-Agrees key (extended ttl now entry) cache (e entry refl) h

  pub extend_expiry-Agrees :
      (ttl : ℕ) (key : CacheKey) (now : ℕ) (cache : Cache)
      → IsClean key
      → Agrees answer cache
      → Agrees answer (extend_expiry ttl key now cache)
  unfolding extend_expiry
  extend_expiry-Agrees ttl key now cache n h =
      if-Agrees (ttl == 0) _ _ (remove-Agrees key cache h)
        (renew_found-Agrees ttl key now (get key cache) cache (λ entry. h key entry n) h)
