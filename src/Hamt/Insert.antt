-- ===== src/Hamt/Insert.antt =====
-- src/hamt.c: `hamt_set`.
use march.Prelude.{
  ℕ, zero, suc, ◌+◌, ◌*◌, ◌/◌, ◌^◌, ◌<◌, bit_or, ◌≡◌, refl, sym, ap, Bool, true, Option, none, some,
  arith,
}
use march.Prelude.Bits.{zero-bit_or}
use march.Hamt.{
  hash, chunk, tag_value, Node, node, Slot, leaf, Slots, end, cons, slot_at, insert_at, replace_at,
  Map, SetChild,
}
use march.Hamt.Bitmap.{digit, ones}
use march.Hamt.Dense.{dense, slot_count, dense-insert, insert-Fits, dense-replace, replace-Fits}
use march.Hamt.Place.{
  chunk-lt, used, used-suc, untag-tag, slot_entry, entry, lookup, SlotOk, IsPlaced, IsValid,
}
use march.Hamt.Write.{Updates, write-NodeOk, write-entry}

-- The map at a level, which may be null.
abbrev pub map_entry : ℕ → ℕ → Map → ℕ → Option ℕ
map_entry left level none j = none
map_entry left level (some n) j = entry left level j n

abbrev pub MapOk : ℕ → ℕ → ℕ → Map → Type 0
MapOk left level p none = Unit
MapOk left level p (some n) = IsPlaced left level p n

pub map_entry-lookup : (m : Map) (j : ℕ) → map_entry 13 0 m j ≡ lookup m j
unfolding lookup
map_entry-lookup none j = refl
map_entry-lookup (some n) j = refl

pub IsValid→MapOk : (m : Map) → IsValid m → MapOk 13 0 0 m
IsValid→MapOk none ok = tt
IsValid→MapOk (some n) ok = ok

pub MapOk→IsValid : (m : Map) → MapOk 13 0 0 m → IsValid m
MapOk→IsValid none ok = tt
MapOk→IsValid (some n) ok = ok

-- No other key of the map has the hash of `key`.
abbrev pub Distinct : ℕ → (ℕ → Option ℕ) → Type 0
Distinct key entries = (j v : ℕ) → entries j ≡ some v → hash j ≡ hash key → j ≡ key

-- What `hamt_set_impl` returns: a placed node with the key written, the bit that tags a value lost.
abbrev pub SetOk : ℕ → ℕ → ℕ → Map → ℕ → ℕ → Option (Node × Bool) → Type 0
SetOk left level p m key value r =
    (n : Node) × (inserted : Bool) × (r ≡ some (n, inserted))
    × IsPlaced left level p n
    × Updates key (some (value / 2 * 2)) (map_entry left level m) (λ j. entry left level j n)

abbrev pub SetsAt : ℕ → ℕ → ℕ → SetChild → Type 0
SetsAt left level p recur =
    (m : Map) (key value : ℕ) (inserted : Bool)
    → 0 < left
    → used level (hash key) ≡ p
    → value < 2 ^ 64
    → MapOk left level p m
    → Distinct key (map_entry left level m)
    → SetOk left level p m key value (recur m key value inserted)

module _ (left level p key : ℕ) where
  -- A slot written at a place that is taken, by one that adds the key to what the old one holds.
  pub set-taken :
      (v : Option ℕ) (bitmap count count' : ℕ) (slots : Slots) (s new : Slot)
      → IsPlaced (suc left) level p (node bitmap count slots)
      → digit bitmap (chunk (hash key) level) ≡ 1
      → slot_at slots (ones (chunk (hash key) level) bitmap) ≡ some s
      → SlotOk
          (IsPlaced left (suc level) (p + chunk (hash key) level * 2 ^ (level * 5)))
          level
          (p + chunk (hash key) level * 2 ^ (level * 5))
          new
      → Updates key v
          (λ j. slot_entry (λ child. entry left (suc level) j child) j s)
          (λ j. slot_entry (λ child. entry left (suc level) j child) j new)
      → let n = node bitmap count' (replace_at slots (ones (chunk (hash key) level) bitmap) new) in
        IsPlaced (suc left) level p n
        × Updates key v
            (map_entry (suc left) level (some (node bitmap count slots)))
            (λ j. entry (suc left) level j n)
  unfolding entry
  set-taken v bitmap count count' slots s new (ok, places) taken at placed updates =
      let c = chunk (hash key) level in
      let writes =
        λ (i : ℕ). dense-replace bitmap c slots (chunk-lt (hash key) level) ok new i taken in
      (
        write-NodeOk (λ q child. IsPlaced left (suc level) q child) level p bitmap count count' c _
            slots _ new (ok, places)
            (replace-Fits bitmap c slots (chunk-lt (hash key) level) ok new) writes placed,
        write-entry (λ j child. entry left (suc level) j child) level bitmap count count' _ key
            slots _ (some new) _ writes (λ j. rw (taken, at) (updates j)),
      )

module _ (left level p key value : ℕ) (u : used level (hash key) ≡ p) (fits : value < 2 ^ 64) where
  -- The place of a new key has used what its slot requires.
  place_used : used (suc level) (hash key) ≡ p + chunk (hash key) level * 2 ^ (level * 5)
  place_used = omega (arith, used-suc level (hash key))

  -- A leaf written at a free place.
  pub set-free :
      (bitmap count count' : ℕ) (slots : Slots)
      → IsPlaced (suc left) level p (node bitmap count slots)
      → digit bitmap (chunk (hash key) level) ≡ 0
      → (n : Node) × (n
          ≡ node
              (bit_or bitmap (2 ^ chunk (hash key) level))
              count'
              (insert_at slots (ones (chunk (hash key) level) bitmap) (leaf key (tag_value value))))
        × IsPlaced (suc left) level p n
        × Updates key
            (some (value / 2 * 2))
            (map_entry (suc left) level (some (node bitmap count slots)))
            (λ j. entry (suc left) level j n)
  unfolding entry
  set-free bitmap count count' slots (ok, places) free =
      let c = chunk (hash key) level in
      let new = leaf key (tag_value value) in
      let writes =
        λ (i : ℕ). dense-insert bitmap c slots (chunk-lt (hash key) level) ok new i free in
      (
        _,
        refl,
        write-NodeOk (λ q child. IsPlaced left (suc level) q child) level p bitmap count count' c _
            slots _ new (ok, places)
            (insert-Fits bitmap c slots (chunk-lt (hash key) level) ok new free) writes place_used,
        write-entry (λ j child. entry left (suc level) j child) level bitmap count count' _ key
            slots _ (some new) _ writes (λ j. rw (free, untag-tag, fits) (ground arith)),
      )

-- The empty node, of which a null map is set like.
empty_digit : (c : ℕ) → digit 0 c ≡ 0
empty_digit zero = refl
empty_digit (suc c) = empty_digit c

empty_ones : (c : ℕ) → ones c 0 ≡ 0
empty_ones zero = refl
empty_ones (suc c) = omega (arith, empty_ones c)

absent : (c : ℕ) {s : Slot} → dense 0 end c ≡ some s → ⊥
absent c e = ground (arith, empty_digit c)

empty-IsPlaced : (left level p : ℕ) → IsPlaced (suc left) level p (node 0 0 end)
unfolding slot_count
empty-IsPlaced left level p =
    (record { width = omega arith; counted = refl }, λ c s hc e. absurd (absent c e))

pub set-null :
    (left level p key value : ℕ)
    → used level (hash key) ≡ p
    → value < 2 ^ 64
    → SetOk
        (suc left)
        level
        p
        none
        key
        value
        (some (node (2 ^ chunk (hash key) level) 1 (cons (leaf key (tag_value value)) end), true))
unfolding entry insert_at
set-null left level p key value u fits =
    let (n, e, placed, updates) =
      set-free left level p key value u fits 0 0 1 end (empty-IsPlaced left level p)
        (empty_digit (chunk (hash key) level)) in
    (
      n,
      true,
      ap (λ (t : Node). some (t, true)) (sym (rw (zero-bit_or, empty_ones) at e)),
      placed,
      λ j. rw (empty_digit (chunk (hash j) level)) at (updates j),
    )
