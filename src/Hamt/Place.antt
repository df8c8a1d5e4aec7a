-- ===== src/Hamt/Place.antt =====
-- src/hamt.c: where a key stands in the tree, and what `hamt_get` finds there.
use native.Mathlib.Nat.{pow-suc, one-le-pow, div-eq_of_lt, mod-lt, add-mul-div_right}
use march.Prelude.{
  ℕ, zero, suc, ◌+◌, ◌-◌, ◌*◌, ◌/◌, ◌%◌, ◌^◌, ◌<◌, bit_or, ◌≡◌, refl, ◌∙◌, ap, Option, none, some,
  arith, ◌>>=◌, ◌==◌, if◌then◌else◌, ◌⊎◌, inl, inr,
}
use march.Prelude.Bits.{bit_and_step, bit_or_step, bit_or-zero, bit_and-mask, mod-mul}
use march.Hamt.{
  hash, hash_loop, chunk, tag_value, untag_value, Node, node, Slot, leaf, branch, Slots, slot_index,
  Map, get, get_loop, read_node, read_slot,
}
use march.Hamt.Bitmap.{digit, ones, digit-lt, absent_test, present_test, slot_index-eq-ones}
use march.Hamt.Dense.{dense, Fits, dense-present}

hash_loop-lt : (left key h : ℕ) → h < 2 ^ 64 → hash_loop left key h < 2 ^ 64
unfolding hash_loop
hash_loop-lt zero key h fits = fits
hash_loop-lt (suc left) key h fits = hash_loop-lt left (key / 256) _ (omega arith)

pub hash-lt : (key : ℕ) → hash key < 2 ^ 64
unfolding hash
hash-lt key = hash_loop-lt 8 key _ (omega arith)

pub chunk_lem : (h level : ℕ) → chunk h level ≡ h / 2 ^ (level * 5) % 32
unfolding chunk
chunk_lem h level = bit_and-mask 5 (h / 2 ^ (level * 5))

pub chunk-lt : (h level : ℕ) → chunk h level < 32
chunk-lt h level = omega (arith, chunk_lem h level)

pow_level : (level : ℕ) → 2 ^ (suc level * 5) ≡ 2 ^ (level * 5) * 32
pow_level level =
    let e : suc level * 5 ≡ suc (suc (suc (suc (suc (level * 5))))) = omega arith in
    rw e (
      omega (
        arith,
        pow-suc 2 (level * 5),
        pow-suc 2 (suc (level * 5)),
        pow-suc 2 (suc (suc (level * 5))),
        pow-suc 2 (suc (suc (suc (level * 5)))),
        pow-suc 2 (suc (suc (suc (suc (level * 5))))),
      ))

-- The part of a hash that the levels above `level` have used.
abbrev pub used : ℕ → ℕ → ℕ
used level h = h % 2 ^ (level * 5)

-- One level uses one chunk more.
pub used-suc : (level h : ℕ) → used (suc level) h ≡ used level h + chunk h level * 2 ^ (level * 5)
used-suc level h =
    ap (λ (t : ℕ). h % t) (pow_level level)
    ∙ omega (
      arith,
      mod-mul h (2 ^ (level * 5)) 32,
      ap (λ (t : ℕ). t * 2 ^ (level * 5)) (chunk_lem h level),
    )

-- After thirteen levels all of a hash is used.
pub used-all : (h : ℕ) → h < 2 ^ 64 → used 13 h ≡ h
used-all h fits = omega arith

-- A value loses its lowest bit to the tag.
pub untag-tag : (v : ℕ) → v < 2 ^ 64 → untag_value (tag_value v) ≡ v / 2 * 2
unfolding untag_value tag_value
untag-tag v fits = omega (
  arith,
  bit_or_step v 1,
  bit_or-zero (v / 2),
  bit_and_step (bit_or v 1) (2 ^ 64 - 2),
  bit_and-mask 63 (bit_or v 1 / 2),
)

pub untag-lt : (w : ℕ) → untag_value w < 2 ^ 64
unfolding untag_value
untag-lt w = omega (arith, bit_and_step w (2 ^ 64 - 2), bit_and-mask 63 (w / 2))

pub untag-even : (w : ℕ) → untag_value w / 2 * 2 ≡ untag_value w
unfolding untag_value
untag-even w = omega (arith, bit_and_step w (2 ^ 64 - 2), bit_and-mask 63 (w / 2))

-- The value under a key, in the reading of nodes as arrays.
abbrev pub slot_entry : (Node → Option ℕ) → ℕ → Slot → Option ℕ
slot_entry below j (leaf k v) = if k == j then some (untag_value v) else none
slot_entry below j (branch child) = below child

abbrev pub node_entry : (Node → Option ℕ) → ℕ → ℕ → Node → Option ℕ
node_entry below j c (node bitmap count slots) = dense bitmap slots c >>= slot_entry below j

unfoldable pub entry : ℕ → ℕ → ℕ → Node → Option ℕ
entry zero level j n = none
entry (suc left) level j n =
    node_entry (λ child. entry left (suc level) j child) j (chunk (hash j) level) n

unfoldable pub lookup : Map → ℕ → Option ℕ
lookup none j = none
lookup (some n) j = entry 13 0 j n

-- A node at a level whose keys have used `p`: a slot for each bit, and each key where its hash
-- leads; `left` levels are left.
abbrev pub SlotOk : (Node → Type 0) → ℕ → ℕ → Slot → Type 0
SlotOk below level p (leaf k v) = used (suc level) (hash k) ≡ p
SlotOk below level p (branch child) = below child

abbrev pub NodeOk : (ℕ → Node → Type 0) → ℕ → ℕ → Node → Type 0
NodeOk below level p (node bitmap count slots) =
    Fits bitmap slots
    × ((c : ℕ) (s : Slot)
        → c < 32
        → dense bitmap slots c ≡ some s
        → SlotOk (below (p + c * 2 ^ (level * 5))) level (p + c * 2 ^ (level * 5)) s)

abbrev pub IsPlaced : ℕ → ℕ → ℕ → Node → Type 0
IsPlaced zero level p n = ⊥
IsPlaced (suc left) level p n = NodeOk (λ q child. IsPlaced left (suc level) q child) level p n

abbrev pub IsValid : Map → Type 0
IsValid none = Unit
IsValid (some n) = IsPlaced 13 0 0 n

pub digit-cases : (b c : ℕ) → (digit b c ≡ 0) ⊎ (digit b c ≡ 1)
digit-cases b c = omega (arith, digit-lt b c)

-- The map's answer: 0 stands for a key that is not there.
abbrev pub or_zero : Option ℕ → ℕ
or_zero none = 0
or_zero (some v) = v

slot-or_zero :
    (descend below : Node → Option ℕ) (j : ℕ) (s : Slot)
    → ((child : Node) → s ≡ branch child → descend child ≡ some (or_zero (below child)))
    → read_slot descend j s ≡ some (or_zero (slot_entry below j s))
unfolding read_slot
slot-or_zero descend below j (leaf k v) h = ground arith
slot-or_zero descend below j (branch child) h = h child refl

get_loop-eq :
    (left level p j : ℕ) (n : Node)
    → IsPlaced left level p n
    → get_loop left level j n ≡ some (or_zero (entry left level j n))
unfolding get_loop entry read_node
get_loop-eq zero level p j n ok = absurd ok
get_loop-eq (suc left) level p j (node bitmap count slots) (fits, places) =
    let c = chunk (hash j) level in
    let below = chunk-lt (hash j) level in
    elim (digit-cases bitmap c) [
      | inl free ↦ rw (absent_test bitmap c free, free) refl
      | inr taken ↦
          let (s, at, there) = dense-present bitmap c slots below fits taken in
          let placed = places c s below there in
          let index : slot_index bitmap c ≡ ones c bitmap =
            slot_index-eq-ones bitmap c (omega arith) in
          rw (present_test bitmap c taken, index, at, taken)
            (slot-or_zero _ _ j s
              λ child e. get_loop-eq left (suc level) _ j child (rw e at placed))
    ]

-- `hamt_get` on a valid map: the value under the key, or 0.
pub get-eq-lookup : (m : Map) (j : ℕ) → IsValid m → get m j ≡ some (or_zero (lookup m j))
unfolding get lookup
get-eq-lookup none j ok = refl
get-eq-lookup (some n) j ok = get_loop-eq 13 0 0 j n ok

-- The chunk at a level is the top digit of what the level has used.
pub used-div : (level h : ℕ) → used (suc level) h / 2 ^ (level * 5) ≡ chunk h level
used-div level h =
    let pos : 0 < 2 ^ (level * 5) = one-le-pow (level * 5) 2 (omega arith) in
    let small : used level h / 2 ^ (level * 5) ≡ 0 = div-eq_of_lt (mod-lt h pos) in
    ap (λ (t : ℕ). t / 2 ^ (level * 5)) (used-suc level h)
    ∙ add-mul-div_right (used level h) (chunk h level) pos
    ∙ omega arith

pub slot-used :
    (below : Node → Type 0) (child_entry : Node → Option ℕ) (level p j v : ℕ) (s : Slot)
    → SlotOk below level p s
    → ((child : Node) → below child → child_entry child ≡ some v → used (suc level) (hash j) ≡ p)
    → slot_entry child_entry j s ≡ some v
    → used (suc level) (hash j) ≡ p
slot-used below child_entry level p j v (leaf k w) ok h e =
    let same : k ≡ j = ground (arith, e) in rw same at ok
slot-used below child_entry level p j v (branch child) ok h e = h child ok e

dense-some :
    (bitmap c v j : ℕ) (slots : Slots) (f : Slot → Option ℕ)
    → (dense bitmap slots c >>= f) ≡ some v
    → (s : Slot) × (dense bitmap slots c ≡ some s) × (f s ≡ some v)
dense-some bitmap c v j slots f e = go (dense bitmap slots c) refl e
  where
    go :
        (o : Option Slot)
        → dense bitmap slots c ≡ o
        → (o >>= f) ≡ some v
        → (s : Slot) × (dense bitmap slots c ≡ some s) × (f s ≡ some v)
    go none h q = cc
    go (some s) h q = (s, h, q)

-- A key that is found below a node has the hash digits that lead there.
pub entry-used :
    (left level p j v : ℕ) (n : Node)
    → IsPlaced left level p n
    → entry left level j n ≡ some v
    → used level (hash j) ≡ p
unfolding entry
entry-used zero level p j v n ok e = absurd ok
entry-used (suc left) level p j v (node bitmap count slots) (fits, places) e =
    let c = chunk (hash j) level in
    let (s, there, found) = dense-some bitmap c v j slots _ e in
    let below =
      slot-used _ _ level (p + c * 2 ^ (level * 5)) j v s
        (places c s (chunk-lt (hash j) level) there)
        (λ child placed q. entry-used left (suc level) _ j v child placed q) found in
    omega (arith, used-suc level (hash j))
