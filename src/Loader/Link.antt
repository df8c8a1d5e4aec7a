-- ===== src/Loader/Link.antt =====
-- src/loader.c and src/cells.c: the linker reads back what the encoders wrote.
use march.Prelude.{
  ℕ, zero, suc, ◌*◌, ◌/◌, ◌%◌, ◌^◌, ◌<◌, ◌≤◌, ◌≡◌, ◌≢◌, refl, sym, ◌∙◌, ap, false, ◌⊎◌, inl, inr,
  Option, none, some, List, [], ◌∷◌, ◌++◌, arith, leb, ◌==◌, if◌then◌else◌, length, length-append,
  append-empty,
}
use mathlib.Core.List.{append_assoc}
use native.Mathlib.Numerals.{unary_clauses}
use march.Prelude.Bits.{bit_or-disjoint, bit_and-mask}
use march.Cells.{encode_xt, encode_lit}
use march.Blob.{value_bytes, blob_word, blob_quotation}
use march.Blob.Codec.{
  Item, primitive, cid_ref, literal, IsEncodable, tag_of, item_bytes, blob_of, decode-item_bytes,
}
use march.Loader.{
  Loader, Linked, read_value, loader_get_primitive_addr, reference_cell, link_tag, link_loop,
  finish_code, loader_link_code, cid_cache_get, loader_link_cid,
}

pub read_value-value_bytes : (n v : ℕ) → v < 256 ^ n → read_value (value_bytes n v) ≡ v
unfolding read_value value_bytes
read_value-value_bytes zero v h = omega arith
read_value-value_bytes (suc n) v h =
    let power : 256 ^ suc n ≡ 256 ^ n * 256 = simp unary_clauses refl in
    let rest = read_value-value_bytes n (v / 256) (omega arith) in
    rw (rest, bit_and-mask 8 v) (omega (arith, bit_or-disjoint 8 (v / 256) (v % 256) (omega arith)))

module _ (table at : ℕ → ℕ) (db : List ℕ → Option (ℕ × List ℕ)) (fuel : ℕ) where
  -- What an item means to the linker: a word or a quotation that is in the cache, a primitive that
  -- the table has, a literal.
  abbrev pub Linkable : Loader → Item → Type 0
  Linkable loader (primitive id) = (id < 256) × (table id ≢ 0)
  Linkable loader (cid_ref kind cid) =
      ((kind ≡ blob_word) ⊎ (kind ≡ blob_quotation))
      × ((addr : ℕ) × (cid_cache_get loader.cid_cache cid ≡ some addr))
  Linkable loader (literal value) = Unit

  abbrev address_or : Option ℕ → ℕ
  address_or none = 0
  address_or (some addr) = addr

  -- The cell for an item: a call, or a push.
  abbrev pub cell_of : Loader → Item → ℕ
  cell_of loader (primitive id) = encode_xt (table id)
  cell_of loader (cid_ref kind cid) =
      if kind == blob_word
      then encode_xt (address_or (cid_cache_get loader.cid_cache cid))
      else encode_lit (address_or (cid_cache_get loader.cid_cache cid))
  cell_of loader (literal value) = encode_lit value

  abbrev link : List ℕ → Loader → Option Linked
  link = loader_link_cid table at db (suc fuel)

  link_tag-cell :
      (loader : Loader) (item : Item)
      → IsEncodable item
      → Linkable loader item
      → link_tag table at link (tag_of item) loader ≡ some (some (cell_of loader item), loader)
  unfolding link_tag loader_get_primitive_addr reference_cell loader_link_cid
  link_tag-cell loader (primitive id) (pos, fits) (few, has) =
      let named : (id == 0) ≡ false = ground arith in
      let inside : leb 256 id ≡ false = ground arith in
      let entry : (table id == 0) ≡ false = ground arith in rw (named, inside, entry)
  link_tag-cell loader (cid_ref kind cid) (fits, size) (inl word, (addr, cached)) =
      rw (cached, link_tag, loader_link_cid) (rw (word, reference_cell))
  link_tag-cell loader (cid_ref kind cid) (fits, size) (inr quot, (addr, cached)) =
      rw (cached, link_tag, loader_link_cid) (rw (quot, reference_cell))
  link_tag-cell loader (literal value) fits ok =
      ap (λ v. some (some (encode_lit v), loader)) (read_value-value_bytes 8 value (omega arith))

  abbrev pub AllItems : Loader → List Item → Type 0
  AllItems loader [] = Unit
  AllItems loader (item ∷ items) = (IsEncodable item × Linkable loader item) × AllItems loader items

  abbrev pub cells_of : Loader → List Item → List ℕ
  cells_of loader [] = []
  cells_of loader (item ∷ items) = cell_of loader item ∷ cells_of loader items

  -- One pass over an item.
  link_loop-item :
      (loader : Loader) (item : Item) (rest cells : List ℕ) (n : ℕ)
      → IsEncodable item
      → Linkable loader item
      → link_loop table at link (suc n) (item_bytes item ++ rest) cells loader
        ≡ link_loop table at link n rest (cells ++ cell_of loader item ∷ []) loader
  unfolding link_loop
  link_loop-item loader (primitive id) rest cells n fits ok =
      rw
        (
          decode-item_bytes (primitive id) rest fits,
          link_tag-cell loader (primitive id) fits ok,
          link_loop,
        )
        refl
  link_loop-item loader (cid_ref kind cid) rest cells n fits ok =
      rw
        (
          decode-item_bytes (cid_ref kind cid) rest fits,
          link_tag-cell loader (cid_ref kind cid) fits ok,
          link_loop,
        )
        refl
  link_loop-item loader (literal value) rest cells n fits ok =
      rw (decode-item_bytes (literal value) rest fits, link_loop)
        (ap (λ v. link_loop table at link n rest (cells ++ encode_lit v ∷ []) loader)
          (read_value-value_bytes 8 value (omega arith)))

  item_bytes-pos : (item : Item) → 0 < length (item_bytes item)
  item_bytes-pos (primitive id) = omega arith
  item_bytes-pos (cid_ref kind cid) = omega arith
  item_bytes-pos (literal value) = omega arith

  link_loop-items :
      (loader : Loader) (items : List Item) (cells : List ℕ) (n : ℕ)
      → AllItems loader items
      → length (blob_of items) ≤ n
      → link_loop table at link n (blob_of items) cells loader
        ≡ some (some (cells ++ cells_of loader items), loader)
  unfolding link_loop
  link_loop-items loader [] cells n all enough =
      ap (λ c. some (some c, loader)) (sym (append-empty cells))
  link_loop-items loader (item ∷ items) cells zero all enough =
      absurd (omega (arith, item_bytes-pos item, length-append (item_bytes item) (blob_of items)))
  link_loop-items loader (item ∷ items) cells (suc n) ((fits, ok), all) enough =
      link_loop-item loader item (blob_of items) cells n fits ok
      ∙ link_loop-items loader items (cells ++ cell_of loader item ∷ []) n all
          (omega (arith, item_bytes-pos item, length-append (item_bytes item) (blob_of items)))
      ∙ rw (append_assoc cells (cell_of loader item ∷ []) (cells_of loader items)) refl

  -- Linking the blob of encodable items whose references are in the cache gives the cells of the
  -- items in order, followed by EXIT, in the object or behind the wrapper of the blob's kind.
  pub loader_link_code-items :
      (loader : Loader) (items : List Item) (kind : ℕ)
      → AllItems loader items
      → loader_link_code table at link loader (blob_of items) kind
        ≡ some (finish_code table at kind (some (cells_of loader items), loader))
  unfolding loader_link_code
  loader_link_code-items loader items kind all =
      rw (link_loop-items loader items [] (length (blob_of items)) all (omega arith))
