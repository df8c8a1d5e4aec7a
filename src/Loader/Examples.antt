-- ===== src/Loader/Examples.antt =====
-- src/loader.c at concrete inputs: a loader that has one CID in its cache.
use march.Prelude.{
  ℕ, ◌+◌, ◌≡◌, refl, ◌∙◌, none, some, Option, List, [], ◌∷◌, arith, length, inl, replicate,
  bytes_eq, bytes_eq_refl, if◌then◌else◌, length-replicate,
}
use march.Blob.Codec.{Item, primitive, cid_ref, literal, blob_of}
use march.Loader.{
  CacheEntry, Loader, loader_create, cid_cache_put, cid_cache_get, finish_code, loader_link_code,
  loader_link_cid,
}
use march.Loader.Cache.{get-put}
use march.Loader.Link.{AllItems, cells_of, loader_link_code-items}

abbrev cid : List ℕ
cid = replicate 32 7

abbrev loader : Loader
loader = record loader_create { cid_cache = cid_cache_put loader_create.cid_cache cid 0x5000 }

create-size : length loader_create.cid_cache ≡ 256
unfolding loader_create
create-size = length-replicate {A = List CacheEntry} 256 []

get-put_example :
    cid_cache_get (cid_cache_put loader_create.cid_cache cid 0x5000) cid
    ≡ (if bytes_eq cid cid then some 0x5000 else cid_cache_get loader_create.cid_cache cid)
get-put_example = get-put loader_create.cid_cache cid cid 0x5000 create-size

cid-cached : cid_cache_get loader.cid_cache cid ≡ some 0x5000
cid-cached = get-put loader_create.cid_cache cid cid 0x5000 create-size ∙ rw (bytes_eq_refl cid)

-- A primitive, a literal and a call of the word.
abbrev items : List Item
items = primitive 1 ∷ literal 300 ∷ cid_ref 1 cid ∷ []

abbrev table : ℕ → ℕ
table id = 0x1000 + id

abbrev place : ℕ → ℕ
place n = 0x8000 + n

abbrev db : List ℕ → Option (ℕ × List ℕ)
db c = none

items-AllItems : AllItems table place db 0 loader items
items-AllItems = (
  (omega arith, (omega arith, λ e. omega arith)),
  ((omega arith, tt), (((omega arith, refl), (inl refl, (0x5000, cid-cached))), tt)),
)

loader_link_code-items_example :
    loader_link_code table place (loader_link_cid table place db 1) loader (blob_of items) 1
    ≡ some (finish_code table place 1 (some (cells_of table place db 0 loader items), loader))
loader_link_code-items_example =
    loader_link_code-items table place db 0 loader items 1 items-AllItems
