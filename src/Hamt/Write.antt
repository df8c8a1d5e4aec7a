-- ===== src/Hamt/Write.antt =====
-- src/hamt.c: writing one place of a node's array writes one key of the map.
use march.Prelude.{
  ℕ, ◌+◌, ◌*◌, ◌^◌, ◌<◌, ◌≡◌, Option, some, arith, ◌>>=◌, ◌==◌, ==_iff, Bool-cases, if◌then◌else◌,
  inl, inr,
}
use march.Hamt.{hash, chunk, Node, node, Slot, Slots}
use march.Hamt.Dense.{dense, Fits}
use march.Hamt.Place.{slot_entry, node_entry, SlotOk, NodeOk}

-- A node whose slots read as those of another with `s` written at place `c`.
abbrev pub Writes : ℕ → Option Slot → ℕ → Slots → ℕ → Slots → Type 0
Writes c s bitmap slots bitmap' slots' =
    (i : ℕ) → dense bitmap' slots' i ≡ (if i == c then s else dense bitmap slots i)

module _ (below : ℕ → Node → Type 0) (level p bitmap count count' c bitmap' : ℕ)
    (slots slots' : Slots) where
  write-places :
      (s : Slot)
      → NodeOk below level p (node bitmap count slots)
      → Writes c (some s) bitmap slots bitmap' slots'
      → SlotOk (below (p + c * 2 ^ (level * 5))) level (p + c * 2 ^ (level * 5)) s
      → (i : ℕ) (t : Slot) → i < 32
      → dense bitmap' slots' i ≡ some t
      → SlotOk (below (p + i * 2 ^ (level * 5))) level (p + i * 2 ^ (level * 5)) t
  write-places s (fits, places) writes new i t hi e = elim (Bool-cases (i == c)) [
    | inl here ↦
        let same : i ≡ c = (==_iff i c).0 here in
        let found : s ≡ t = ground (arith, writes i) in rw (same, ← found) new
    | inr other ↦ places i t hi (ground (arith, writes i))
  ]

  pub write-NodeOk :
      (s : Slot)
      → NodeOk below level p (node bitmap count slots)
      → Fits bitmap' slots'
      → Writes c (some s) bitmap slots bitmap' slots'
      → SlotOk (below (p + c * 2 ^ (level * 5))) level (p + c * 2 ^ (level * 5)) s
      → NodeOk below level p (node bitmap' count' slots')
  write-NodeOk s old fits writes new = (fits, write-places s old writes new)

-- One key of the map is written.
abbrev pub Updates : ℕ → Option ℕ → (ℕ → Option ℕ) → (ℕ → Option ℕ) → Type 0
Updates key v old fresh = (j : ℕ) → fresh j ≡ (if key == j then v else old j)

pub write-entry :
    (below : ℕ → Node → Option ℕ) (level bitmap count count' bitmap' key : ℕ) (slots slots' : Slots)
    (s : Option Slot) (v : Option ℕ)
    → Writes (chunk (hash key) level) s bitmap slots bitmap' slots'
    → Updates key v
        (λ j. dense bitmap slots (chunk (hash key) level) >>= slot_entry (below j) j)
        (λ j. s >>= slot_entry (below j) j)
    → Updates key v
        (λ j. node_entry (below j) j (chunk (hash j) level) (node bitmap count slots))
        (λ j. node_entry (below j) j (chunk (hash j) level) (node bitmap' count' slots'))
write-entry below level bitmap count count' bitmap' key slots slots' s v writes updates j =
    elim (Bool-cases (chunk (hash j) level == chunk (hash key) level)) [
      | inl same ↦
          let e : chunk (hash j) level ≡ chunk (hash key) level = (==_iff _ _).0 same in
          rw (writes (chunk (hash j) level), same, e) (updates j)
      | inr other ↦ rw (writes (chunk (hash j) level), other) (ground arith)
    ]
