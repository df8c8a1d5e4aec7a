-- ===== src/Hamt/Update.antt =====
-- src/hamt.c: `hamt_set_impl` level by level, and `hamt_set`.
use march.Prelude.{
  ℕ, zero, suc, ◌+◌, ◌*◌, ◌/◌, ◌%◌, ◌^◌, ◌<◌, ◌≡◌, ◌≢◌, ==_refl, refl, sym, ◌∙◌, ap, Bool, true,
  false, Option, none, some, arith, ◌==◌, Bool-cases, if◌then◌else◌, ◌⊎◌, inl, inr,
}
use march.Hamt.{
  hash, chunk, tag_value, untag_value, Node, node, Slot, leaf, branch, Slots, slot_at, Map, set,
  set_impl, set_node, set_slot, SetChild, replace_at,
}
use march.Hamt.Bitmap.{digit, ones, absent_test, present_test, slot_index-eq-ones}
use march.Hamt.Dense.{dense-present}
use march.Hamt.Place.{
  chunk-lt, hash-lt, used, used-suc, used-div, used-all, untag-tag, untag-lt, untag-even,
  slot_entry, slot-used, entry, entry-used, lookup, SlotOk, IsPlaced, IsValid, digit-cases,
}
use march.Hamt.Write.{Updates}
use march.Hamt.Insert.{
  map_entry, map_entry-lookup, IsValid→MapOk, Distinct, SetOk, SetsAt, set-free, set-taken,
  set-null,
}

ℕ-cases : (n : ℕ) → (n ≡ 0) ⊎ (0 < n)
ℕ-cases n = omega arith

module _ (left level p key value : ℕ) (u : used level (hash key) ≡ p) (fits : value < 2 ^ 64)
    (bitmap count : ℕ) (slots : Slots) (ok : IsPlaced (suc left) level p (node bitmap count slots))
    (distinct : Distinct key (map_entry (suc left) level (some (node bitmap count slots))))
    (taken : digit bitmap (chunk (hash key) level) ≡ 1) (s : Slot)
    (at : slot_at slots (ones (chunk (hash key) level) bitmap) ≡ some s) where
  abbrev q : ℕ
  q = p + chunk (hash key) level * 2 ^ (level * 5)

  key_used : used (suc level) (hash key) ≡ q
  key_used = omega (arith, used-suc level (hash key))

  -- The slot of `key` in the node.
  slot-IsPlaced : SlotOk (IsPlaced left (suc level) q) level q s
  slot-IsPlaced = ok.1 (chunk (hash key) level) s (chunk-lt (hash key) level) (rw taken at)

  -- What the slot holds, the node holds.
  slot_entry-up :
      (j v : ℕ)
      → slot_entry (λ child. entry left (suc level) j child) j s ≡ some v
      → entry (suc left) level j (node bitmap count slots) ≡ some v
  unfolding entry
  slot_entry-up j v e =
      let there =
        slot-used (IsPlaced left (suc level) q) _ level q j v s slot-IsPlaced
          (λ child placed. entry-used left (suc level) q j v child placed) e in
      let same : chunk (hash j) level ≡ chunk (hash key) level =
        sym (used-div level (hash j))
        ∙ ap (λ (t : ℕ). t / 2 ^ (level * 5)) (there ∙ sym key_used)
        ∙ used-div level (hash key) in
      rw (same, taken, at) e

  slot-Distinct : Distinct key (λ j. slot_entry (λ child. entry left (suc level) j child) j s)
  slot-Distinct j v e h = distinct j v (slot_entry-up j v e) h

  abbrev Goal : Option (Node × Bool) → Type 0
  Goal = SetOk (suc left) level p (some (node bitmap count slots)) key value

  -- The node with a new slot at the place of `key`.
  slot-Goal :
      (count' : ℕ) (inserted : Bool) (new : Slot)
      → SlotOk (IsPlaced left (suc level) q) level q new
      → Updates key
          (some (value / 2 * 2))
          (λ j. slot_entry (λ child. entry left (suc level) j child) j s)
          (λ j. slot_entry (λ child. entry left (suc level) j child) j new)
      → Goal (
          some (
            node bitmap count' (replace_at slots (ones (chunk (hash key) level) bitmap) new),
            inserted,
          ))
  slot-Goal count' inserted new placed updates =
      let (placed', updates') =
        set-taken left level p key (some (value / 2 * 2)) bitmap count count' slots s new ok taken
          at placed updates in
      (_, inserted, refl, placed', updates')

  module _ (recur : SetChild) (ih : SetsAt left (suc level) q recur) (inserted : Bool) where
    abbrev step : Slot → Option (Node × Bool)
    step =
        set_slot recur bitmap count slots (ones (chunk (hash key) level) bitmap) key value inserted

    -- The key's own leaf.
    set-own : (k w : ℕ) → s ≡ leaf k w → (k == key) ≡ true → Goal (step (leaf k w))
    unfolding set_slot
    set-own k w e same = rw same (
        slot-Goal count inserted (leaf k (tag_value value)) (rw e at slot-IsPlaced)
          λ j. rw (e, untag-tag value fits) (ground arith))

    -- The other key of a collision has used what `key` has; its whole hash differs.
    levels_left : (k w : ℕ) → suc left + level ≡ 13 → s ≡ leaf k w → (k == key) ≡ false → 0 < left
    levels_left k w depth e other =
        let shared : used (suc level) (hash k) ≡ used (suc level) (hash key) =
          (rw e at slot-IsPlaced) ∙ sym key_used in
        let last : left ≡ 0 → hash k ≡ hash key = λ z.
          let d : suc level ≡ 13 = omega arith in
          sym (used-all (hash k) (hash-lt k))
          ∙ (rw d at shared)
          ∙ used-all (hash key) (hash-lt key) in
        let found : slot_entry (λ child. entry left (suc level) k child) k s
            ≡ some (untag_value w) =
          rw (e, ==_refl k) refl in
        let differs : hash k ≢ hash key =
          λ h. ground (arith, slot-Distinct k (untag_value w) found h) in
        elim (ℕ-cases left) [ inl z ↦ absurd (differs (last z)) | inr pos ↦ pos ]

    -- Another key's leaf goes one level down, with `key`.
    set-other :
        (k w : ℕ)
        → suc left + level ≡ 13
        → s ≡ leaf k w
        → (k == key) ≡ false
        → Goal (step (leaf k w))
    unfolding set_slot
    set-other k w depth e other =
        let pos = levels_left k w depth e other in
        let (c₁, i₁, e₁, p₁, u₁) =
          ih none k (untag_value w) inserted pos (rw e at slot-IsPlaced) (untag-lt w) tt
            (λ j v n. cc) in
        let (c₂, i₂, e₂, p₂, u₂) =
          ih (some c₁) key value i₁ pos key_used fits p₁ (λ j v found h.
            slot-Distinct j (untag_value w) (rw e (ground (arith, found, u₁ j))) h) in
        rw (other, e₁, e₂)
          (slot-Goal ((count + 1) % 2 ^ 32) i₂ (branch c₂) p₂ λ j. rw (u₂ j, u₁ j, e, untag-even w))

    above_zero : (l : ℕ) (child : Node) → IsPlaced l (suc level) q child → 0 < l
    above_zero zero child placed = absurd placed
    above_zero (suc l) child placed = omega arith

    set-child : (child : Node) → s ≡ branch child → Goal (step (branch child))
    unfolding set_slot
    set-child child e =
        let (c', i', e', p', u') =
          ih (some child) key value inserted (above_zero left child (rw e at slot-IsPlaced))
            key_used fits (rw e at slot-IsPlaced)
            (λ j v found h. slot-Distinct j v (rw e found) h) in
        rw e' (
          slot-Goal (if i' then (count + 1) % 2 ^ 32 else count) i' (branch c') p'
            λ j. rw (u' j, e))

set-slot :
    (left level p key value : ℕ) (u : used level (hash key) ≡ p) (fits : value < 2 ^ 64)
    (bitmap count : ℕ) (slots : Slots) (ok : IsPlaced (suc left) level p (node bitmap count slots))
    (distinct : Distinct key (map_entry (suc left) level (some (node bitmap count slots))))
    (taken : digit bitmap (chunk (hash key) level) ≡ 1) (s : Slot)
    (at : slot_at slots (ones (chunk (hash key) level) bitmap) ≡ some s) (recur : SetChild)
    (ih : SetsAt left (suc level) (p + chunk (hash key) level * 2 ^ (level * 5)) recur)
    (inserted : Bool)
    → suc left + level ≡ 13
    → SetOk (suc left) level p (some (node bitmap count slots)) key value (
        set_slot recur bitmap count slots
          (ones (chunk (hash key) level) bitmap)
          key
          value
          inserted
          s)
set-slot left level p key value u fits bitmap count slots ok distinct taken (leaf k w) at recur ih
      inserted depth =
    elim (Bool-cases (k == key)) [
      | inl same ↦
          set-own left level p key value u fits bitmap count slots ok distinct taken _ at recur ih
            inserted k w refl same
      | inr other ↦
          set-other left level p key value u fits bitmap count slots ok distinct taken _ at recur ih
            inserted k w depth refl other
    ]
set-slot left level p key value u fits bitmap count slots ok distinct taken (branch child) at recur
      ih inserted depth =
    set-child left level p key value u fits bitmap count slots ok distinct taken _ at recur ih
      inserted child refl

-- Each level of `hamt_set_impl`, with thirteen levels in all.
set_impl-SetsAt : (left level p : ℕ) → left + level ≡ 13 → SetsAt left level p (set_impl left level)
unfolding set_impl set_node
set_impl-SetsAt zero level p depth m key value inserted pos u fits ok distinct =
    absurd (omega arith)
set_impl-SetsAt (suc left) level p depth none key value inserted pos u fits ok distinct =
    set-null left level p key value u fits
set_impl-SetsAt (suc left) level p depth (some (node bitmap count slots)) key value inserted pos u
      fits ok distinct =
    let c = chunk (hash key) level in
    let below = chunk-lt (hash key) level in
    let index = slot_index-eq-ones bitmap c (omega arith) in
    elim (digit-cases bitmap c) [
      | inl free ↦
          let (n, e, placed, updates) =
            set-free left level p key value u fits bitmap count ((count + 1) % 2 ^ 32) slots ok
              free in
          rw (absent_test bitmap c free, index)
            (n, true, ap (λ (t : Node). some (t, true)) (sym e), placed, updates)
      | inr taken ↦
          let (s, at, _) = dense-present bitmap c slots below ok.0 taken in
          rw (present_test bitmap c taken, index, at)
            (set-slot left level p key value u fits bitmap count slots ok distinct taken s at _
              (λ m k v i. set_impl-SetsAt left (suc level) _ (omega arith) m k v i) inserted depth)
    ]

-- A map with one more key, or with another value under it.
pub record SetsKey (m : Map) (key value : ℕ) (m' : Map) : Type 0 where
  pub result : set m key value ≡ some m'
  pub valid : IsValid m'
  pub updates : Updates key (some (value / 2 * 2)) (lookup m) (lookup m')

-- On a valid map, with no other key of the map on the hash of `key`, `hamt_set` returns a valid map
-- in which `key` has the value with its lowest bit cleared and every other key has what it had.
pub set-SetsKey :
    (m : Map) (key value : ℕ)
    → IsValid m
    → value < 2 ^ 64
    → Distinct key (lookup m)
    → (m' : Map) × SetsKey m key value m'
unfolding set lookup
set-SetsKey m key value ok fits distinct =
    let (n, i, e, placed, updates) =
      set_impl-SetsAt 13 0 0 refl m key value false (omega arith) (omega arith) fits
        (IsValid→MapOk m ok) (λ j v found h. distinct j v (sym (map_entry-lookup m j) ∙ found) h) in
    (
      some n,
      record {
        result = rw e;
        valid = placed;
        updates = λ j. rw (← map_entry-lookup m j) (updates j);
      },
    )
