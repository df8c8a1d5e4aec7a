-- ===== src/Loader/Cache.antt =====
-- src/loader.c: the cache of CIDs is a table in which a new entry hides an older one.
use march.Prelude.{
  ℕ, ◌<◌, ◌≡◌, ◌≢◌, ◌∙◌, ap, false, inl, inr, some, List, [], ◌∷◌, arith, ◌==◌, Bool-cases, ==_iff,
  bytes_eq, bytes_eq→eq, if◌then◌else◌, length, get_or, length-set, get_or-set_self, get_or-set_ne,
}
use march.Loader.{CacheEntry, hash_cid_binary, cid_cache_put, find_cid, cid_cache_get}

-- A cache has 256 buckets, and keeps them.
pub put-length :
    (cache : List (List CacheEntry)) (cid : List ℕ) (addr : ℕ)
    → length cache ≡ 256
    → length (cid_cache_put cache cid addr) ≡ 256
unfolding cid_cache_put
put-length cache cid addr size = length-set cache (hash_cid_binary cid) _ ∙ size

bucket_bound : (key : List ℕ) → hash_cid_binary key < 256
unfolding hash_cid_binary
bucket_bound key = omega arith

-- After a put, a lookup finds the address for its CID, and what it found before for any other.
pub get-put :
    (cache : List (List CacheEntry)) (cid key : List ℕ) (addr : ℕ)
    → length cache ≡ 256
    → cid_cache_get (cid_cache_put cache cid addr) key
      ≡ (if bytes_eq cid key then some addr else cid_cache_get cache key)
unfolding cid_cache_put cid_cache_get find_cid
get-put cache cid key addr size = elim (Bool-cases (hash_cid_binary cid == hash_cid_binary key)) [
  | inl same ↦
      let e = (==_iff (hash_cid_binary cid) (hash_cid_binary key)).0 same in
      let at =
        get_or-set_self cache (hash_cid_binary key)
          (record { cid = cid; addr = addr } ∷ get_or cache (hash_cid_binary key) []) []
          (omega (arith, size, bucket_bound key)) in
      rw (e, at)
  | inr apart ↦
      let n : hash_cid_binary cid ≢ hash_cid_binary key = λ q. ground arith in
      let differ : bytes_eq cid key ≡ false = elim (Bool-cases (bytes_eq cid key)) [
        | inl eq ↦ absurd (n (ap hash_cid_binary (bytes_eq→eq cid key eq)))
        | inr ne ↦ ne
      ] in
      rw (differ, get_or-set_ne cache (hash_cid_binary cid) (hash_cid_binary key) _ [] n)
]
