-- ===== src/Hamt/Delete.antt =====
-- src/hamt.c: `hamt_remove`.
use march.Prelude.{
  ℕ, zero, suc, ◌+◌, ◌-◌, ◌*◌, ◌%◌, ◌^◌, ◌<◌, ◌≡◌, refl, sym, ◌∙◌, Option, none, some, arith, ◌==◌,
  ==_iff, Bool-cases, inl, inr,
}
use march.Hamt.{
  hash, chunk, Node, node, Slot, leaf, branch, Slots, slot_at, remove_at, Map, Removal, same, gone,
  changed, drop_slot, put_child, remove_slot, remove_node, remove_impl, removed_from, remove,
}
use march.Hamt.Bitmap.{
  digit, ones, clear, ones-lt, ones-clear, absent_test, present_test, slot_index-eq-ones,
  popcount-eq-ones, digit-lt,
}
use march.Hamt.Dense.{dense-present, dense-remove, remove-Fits}
use march.Hamt.Place.{chunk-lt, slot_entry, entry, lookup, IsPlaced, IsValid, digit-cases}
use march.Hamt.Write.{Updates, write-entry}
use march.Hamt.Insert.{map_entry, map_entry-lookup, MapOk, MapOk→IsValid, set-taken}

-- What `hamt_remove_impl` returns stands for a placed map without the key.
abbrev pub RemoveOk : ℕ → ℕ → ℕ → ℕ → Node → Option Removal → Type 0
RemoveOk left level p key n r =
    (x : Removal) × (r ≡ some x)
    × MapOk left level p (removed_from n x)
    × Updates key none (λ j. entry left level j n) (map_entry left level (removed_from n x))

no_ones : (b i : ℕ) → ones 32 b ≡ 0 → i < 32 → digit b i ≡ 0
no_ones b i none_left h = ground (arith, ones-lt b i 32, digit-lt b i)

module _ (left level p key bitmap count : ℕ) (slots : Slots)
    (ok : IsPlaced (suc left) level p (node bitmap count slots))
    (taken : digit bitmap (chunk (hash key) level) ≡ 1) (s : Slot)
    (at : slot_at slots (ones (chunk (hash key) level) bitmap) ≡ some s) where
  abbrev c : ℕ
  c = chunk (hash key) level

  abbrev rest : Node
  rest =
      node (clear 32 bitmap c) ((count + (2 ^ 32 - 1)) % 2 ^ 32) (remove_at slots (ones c bitmap))

  abbrev Empties : Type 0
  Empties =
      Updates key none (λ j. slot_entry (λ child. entry left (suc level) j child) j s) (λ j. none)

  rest-IsPlaced : IsPlaced (suc left) level p rest
  rest-IsPlaced =
      let below = chunk-lt (hash key) level in
      (
        remove-Fits bitmap c slots below ok.0 taken,
        λ i t hi e. ok.1 i t hi (ground (arith, dense-remove bitmap c slots below ok.0 i taken)),
      )

  rest-Updates :
      Empties
      → Updates key none
          (λ j. entry (suc left) level j (node bitmap count slots))
          (λ j. entry (suc left) level j rest)
  unfolding entry
  rest-Updates empties =
      write-entry (λ j child. entry left (suc level) j child) level bitmap count count _ key slots _
        none none (λ i. dense-remove bitmap c slots (chunk-lt (hash key) level) ok.0 i taken)
        (λ j. rw (taken, at) (empties j))

  -- With one slot left, nothing is left of the map.
  rest-none : ones 32 bitmap ≡ 1 → (j : ℕ) → entry (suc left) level j rest ≡ none
  unfolding entry
  rest-none one j =
      let below = chunk-lt (hash key) level in
      let free : digit (clear 32 bitmap c) (chunk (hash j) level) ≡ 0 =
        no_ones (clear 32 bitmap c) (chunk (hash j) level)
          (ground (arith, ones-clear 32 bitmap c 32 ok.0.width below taken))
          (chunk-lt (hash j) level) in
      rw free

  abbrev Goal : Option Removal → Type 0
  Goal = RemoveOk (suc left) level p key (node bitmap count slots)

  drop-Goal : Empties → Goal (some (drop_slot bitmap count slots c))
  unfolding drop_slot removed_from
  drop-Goal empties =
      let updates = rest-Updates empties in
      rw (popcount-eq-ones, slot_index-eq-ones bitmap c (omega (arith, chunk-lt (hash key) level)))
        (elim (Bool-cases (ones 32 bitmap == 1)) [
          | inl one ↦
              rw one (gone, refl, tt, λ j. sym (rest-none ((==_iff _ _).0 one) j) ∙ updates j)
          | inr more ↦ rw more (changed rest, refl, rest-IsPlaced, updates)
        ])

  same-Goal : slot_entry (λ child. entry left (suc level) key child) key s ≡ none → Goal (some same)
  unfolding removed_from entry
  same-Goal absent = (
    same,
    refl,
    ok,
    λ j. elim (Bool-cases (key == j)) [
      | inl here ↦ let e : key ≡ j = (==_iff key j).0 here in rw (here, ← e, taken, at, absent) refl
      | inr other ↦ rw other
    ],
  )

  module _ (recur : Node → Option Removal) where
    abbrev step : Slot → Option Removal
    step = remove_slot recur bitmap count slots c key

    remove-leaf : (k w : ℕ) → s ≡ leaf k w → Goal (step (leaf k w))
    unfolding remove_slot
    remove-leaf k w e = elim (Bool-cases (k == key)) [
      | inl own ↦ rw own (drop-Goal λ j. rw e (ground arith))
      | inr other ↦ rw other (same-Goal (rw (e, other)))
    ]

    remove-child :
        (child : Node)
        → s ≡ branch child
        → (x : Removal) → recur child ≡ some x
        → MapOk left (suc level) (p + c * 2 ^ (level * 5)) (removed_from child x)
        → Updates key none
            (λ j. entry left (suc level) j child)
            (map_entry left (suc level) (removed_from child x))
        → Goal (step (branch child))
    unfolding remove_slot put_child removed_from
    remove-child child e same r placed updates =
        rw r (same-Goal (rw e (ground (arith, updates key))))
    remove-child child e gone r placed updates = rw r (drop-Goal λ j. rw e (updates j))
    remove-child child e (changed child') r placed updates =
        let (placed', updates') =
          set-taken left level p key none bitmap count ((count + (2 ^ 32 - 1)) % 2 ^ 32) slots s
            (branch child') ok taken at placed (λ j. rw e (updates j)) in
        rw (r, slot_index-eq-ones bitmap c (omega (arith, chunk-lt (hash key) level)))
          (changed _, refl, placed', updates')

remove-slot :
    (left level p key bitmap count : ℕ) (slots : Slots)
    (ok : IsPlaced (suc left) level p (node bitmap count slots))
    (taken : digit bitmap (chunk (hash key) level) ≡ 1) (s : Slot)
    (at : slot_at slots (ones (chunk (hash key) level) bitmap) ≡ some s)
    (recur : Node → Option Removal)
    → ((child : Node)
        → IsPlaced left (suc level) (p + chunk (hash key) level * 2 ^ (level * 5)) child
        → RemoveOk left
            (suc level)
            (p + chunk (hash key) level * 2 ^ (level * 5))
            key
            child
            (recur child))
    → RemoveOk
        (suc left)
        level
        p
        key
        (node bitmap count slots)
        (remove_slot recur bitmap count slots (chunk (hash key) level) key s)
remove-slot left level p key bitmap count slots ok taken (leaf k w) at recur ih =
    remove-leaf left level p key bitmap count slots ok taken _ at recur k w refl
remove-slot left level p key bitmap count slots ok taken (branch child) at recur ih =
    let c = chunk (hash key) level in
    let (x, e, placed, updates) =
      ih child (ok.1 c (branch child) (chunk-lt (hash key) level) (rw taken at)) in
    remove-child left level p key bitmap count slots ok taken _ at recur child refl x e placed
      updates

remove_impl-RemoveOk :
    (left level p key : ℕ) (n : Node)
    → IsPlaced left level p n
    → RemoveOk left level p key n (remove_impl left level key n)
unfolding remove_impl remove_node entry removed_from
remove_impl-RemoveOk zero level p key n ok = absurd ok
remove_impl-RemoveOk (suc left) level p key (node bitmap count slots) ok =
    let c = chunk (hash key) level in
    let below = chunk-lt (hash key) level in
    elim (digit-cases bitmap c) [
      | inl free ↦ rw (absent_test bitmap c free) (
        same,
        refl,
        ok,
        λ j. elim (Bool-cases (key == j)) [
          | inl here ↦ let e : key ≡ j = (==_iff key j).0 here in rw (here, ← e, free) refl
          | inr other ↦ rw other
        ],
      )
      | inr taken ↦
          let (s, at, _) = dense-present bitmap c slots below ok.0 taken in
          rw (present_test bitmap c taken, slot_index-eq-ones bitmap c (omega arith), at)
            (remove-slot left level p key bitmap count slots ok taken s at _
              (λ child placed. remove_impl-RemoveOk left (suc level) _ key child placed))
    ]

-- On a valid map `hamt_remove` returns a valid map without the key, and with every other key as it
-- was.
pub remove-Updates :
    (m : Map) (key : ℕ)
    → IsValid m
    → (m' : Map) × (remove m key ≡ some m') × IsValid m' × Updates key none (lookup m) (lookup m')
unfolding remove lookup
remove-Updates none key ok = (none, refl, tt, λ j. ground arith)
remove-Updates (some n) key ok =
    let (x, e, placed, updates) = remove_impl-RemoveOk 13 0 0 key n ok in
    (
      removed_from n x,
      rw e,
      MapOk→IsValid (removed_from n x) placed,
      λ j. rw (← map_entry-lookup (removed_from n x) j) (updates j),
    )
