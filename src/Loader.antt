-- ===== src/Loader.antt =====
-- src/loader.h and src/loader.c: the cache from CIDs to addresses, and the linking of a blob into
-- cells. The database is the function `db` from a CID to the blob's kind and bytes, the table of
-- primitives the function `table` from an id to an address, where 0 is the null pointer. The heap
-- is the list of the objects allocated, and the n-th stands at the address `at n`. Allocation is
-- taken to succeed. In a result the outer `none` is a read out of bounds or a link that does not
-- end, and the inner `none` the null pointer.
pub mod Cache
pub mod Link
mod Examples
use march.Prelude.{
  ℕ, zero, suc, ◌+◌, ◌*◌, ◌%◌, ◌^◌, bit_or, Bool, true, false, ◌||◌, Option, none, some, List, [],
  ◌∷◌, ◌++◌, ltb, leb, ◌==◌, if◌then◌else◌, ◌>>=◌, bytes_eq, length, get_or, set, replicate,
}
use march.Cells.{encode_xt, encode_lit, encode_exit}
use march.Blob.{
  Tag, decode_tag_ex, read_bytes, prim_lit, blob_primitive, blob_word, blob_quotation, blob_data,
}

pub record CacheEntry : Type 0 where
  pub cid : List ℕ
  pub addr : ℕ

-- A buffer of cells, a copy of a blob, and the machine code that starts the cells at an address.
pub data Object : Type 0 where
  cells_at : List ℕ → Object
  bytes_at : List ℕ → Object
  wrapper_of : ℕ → Object

pub record Loader : Type 0 where
  pub cid_cache : List (List CacheEntry)
  pub heap : List Object

-- The first `n` bytes, in 32 bits. A CID that is too short is read out of bounds.
pub hash_bytes : ℕ → ℕ → List ℕ → ℕ
hash_bytes zero hash cid = hash
hash_bytes (suc n) hash [] = hash
hash_bytes (suc n) hash (b ∷ cid) = hash_bytes n ((hash * 31 + b) % 2 ^ 32) cid

pub hash_cid_binary : List ℕ → ℕ
unfolding hash_bytes
hash_cid_binary cid = hash_bytes 8 0 cid % 256

pub loader_create : Loader
loader_create = record { cid_cache = replicate 256 []; heap = [] }

pub cid_cache_put : List (List CacheEntry) → List ℕ → ℕ → List (List CacheEntry)
cid_cache_put cache cid addr =
    let bucket = hash_cid_binary cid in
    set cache bucket (record { cid = cid; addr = addr } ∷ get_or cache bucket [])

pub find_cid : List ℕ → List CacheEntry → Option ℕ
find_cid cid [] = none
find_cid cid (entry ∷ chain) =
    if bytes_eq entry.cid cid then some entry.addr else find_cid cid chain

pub cid_cache_get : List (List CacheEntry) → List ℕ → Option ℕ
unfolding find_cid
cid_cache_get cache cid = find_cid cid (get_or cache (hash_cid_binary cid) [])

-- `value |= cid[i] << (i * 8)` over the bytes.
pub read_value : List ℕ → ℕ
read_value [] = 0
read_value (b ∷ bytes) = bit_or b (read_value bytes * 2 ^ 8)

-- What a link returns: the address, if it succeeds, and the loader after it.
abbrev pub Linked : Type 0
Linked = Option ℕ × Loader

module _ (table at : ℕ → ℕ) where
  pub loader_get_primitive_addr : ℕ → Option ℕ
  loader_get_primitive_addr prim_id =
      if leb 256 prim_id then none else if table prim_id == 0 then none else some (table prim_id)

  -- A new object, and the address that it has.
  pub allocate : Loader → Object → ℕ × Loader
  allocate loader object =
      (at (length loader.heap), record loader { heap = loader.heap ++ object ∷ [] })

  -- The object at an address.
  pub object_at : List Object → ℕ → ℕ → Option Object
  object_at [] n addr = none
  object_at (object ∷ heap) n addr =
      if at n == addr then some object else object_at heap (suc n) addr

  -- `*(int64_t*)addr`, for the address of a blob's copy.
  pub read_i64 : Loader → ℕ → Option ℕ
  unfolding object_at
  read_i64 loader addr = object_at loader.heap 0 addr >>= λ object. elim object [
    | bytes_at bytes ↦ read_bytes 8 bytes >>= λ r. some (read_value r.0)
    | _ ↦ none
  ]

  -- The cell for a reference of a kind to an address. The inner `none` is an unknown kind.
  pub reference_cell : ℕ → ℕ → Loader → Option (Option ℕ)
  unfolding read_i64
  reference_cell kind addr loader =
      if kind == blob_word || kind == blob_primitive
      then some (some (encode_xt addr))
      else if kind == blob_quotation
      then some (some (encode_lit addr))
      else if kind == blob_data
      then (read_i64 loader addr >>= λ value. some (some (encode_lit value)))
      else some none

  -- One pass of the loop of `loader_link_code`: the cell for what was decoded.
  pub link_tag : (List ℕ → Loader → Option Linked) → Tag → Loader → Option Linked
  unfolding reference_cell
  link_tag link tag loader =
      if tag.is_cid
      then (link tag.cid loader >>= λ r. elim r.0 [
        | none ↦ some (none, r.1)
        | some addr ↦ reference_cell tag.id_or_kind addr r.1 >>= λ cell. some (cell, r.1)
      ])
      else if tag.id_or_kind == prim_lit
      then some (some (encode_lit (read_value tag.cid)), loader)
      else elim (loader_get_primitive_addr tag.id_or_kind) [
        | none ↦ some (none, loader)
        | some addr ↦ some (some (encode_xt addr), loader)
      ]

  -- The loop, which ends since a pass reads at least two bytes: on fuel, for which the number of
  -- bytes is enough. The cells, or the null pointer.
  pub link_loop :
      (List ℕ → Loader → Option Linked)
      → ℕ
      → List ℕ
      → List ℕ
      → Loader
      → Option (Option (List ℕ) × Loader)
  unfolding link_tag
  link_loop link fuel [] cells loader = some (some cells, loader)
  link_loop link zero (b ∷ ptr) cells loader = none
  link_loop link (suc fuel) (b ∷ ptr) cells loader = decode_tag_ex (b ∷ ptr) >>= λ d.
      link_tag link d.0 loader >>= λ r. elim r.0 [
        | none ↦ some (none, r.1)
        | some cell ↦ link_loop link fuel d.1 (cells ++ cell ∷ []) r.1
      ]

  -- The end of `loader_link_code`: EXIT, and the wrapper for what can be executed.
  pub finish_code : ℕ → Option (List ℕ) × Loader → Linked
  unfolding allocate
  finish_code kind (none, loader) = (none, loader)
  finish_code kind (some cells, loader) =
      let code = allocate loader (cells_at (cells ++ encode_exit ∷ [])) in
      if kind == blob_word || kind == blob_quotation
      then (let wrapper = allocate code.1 (wrapper_of code.0) in (some wrapper.0, wrapper.1))
      else (some code.0, code.1)

  pub loader_link_code : (List ℕ → Loader → Option Linked) → Loader → List ℕ → ℕ → Option Linked
  unfolding link_loop finish_code
  loader_link_code link loader blob_data kind =
      link_loop link (length blob_data) blob_data [] loader >>= λ r. some (finish_code kind r)

  -- The `switch` of `loader_link_cid` on the kind.
  pub link_blob : (List ℕ → Loader → Option Linked) → Loader → ℕ → List ℕ → Option Linked
  unfolding allocate
  link_blob link loader kind bytes =
      if kind == blob_word || kind == blob_quotation
      then loader_link_code link loader bytes kind
      else if kind == blob_data
      then (let copy = allocate loader (bytes_at bytes) in some (some copy.0, copy.1))
      else some (none, loader)

  pub cache_result : List ℕ → Linked → Linked
  cache_result cid (none, loader) = (none, loader)
  cache_result cid (some addr, loader) =
      (some addr, record loader { cid_cache = cid_cache_put loader.cid_cache cid addr })

  -- On fuel for the depth of the references.
  pub loader_link_cid : (List ℕ → Option (ℕ × List ℕ)) → ℕ → List ℕ → Loader → Option Linked
  unfolding link_blob cache_result
  loader_link_cid db zero cid loader = none
  loader_link_cid db (suc fuel) cid loader = elim (cid_cache_get loader.cid_cache cid) [
    | some addr ↦ some (some addr, loader)
    | none ↦ elim (db cid) [
      | none ↦ some (none, loader)
      | some blob ↦ link_blob (loader_link_cid db fuel) loader blob.0 blob.1 >>= λ r.
          some (cache_result cid r)
    ]
  ]
