-- ===== src/Compiler/Slots.antt =====
-- src/compiler.c: the slots. An allocation takes the first one that is free, and `slot_count` stays
-- above every slot in use.
use march.Prelude.{
  Option, ℕ, zero, suc, ◌+◌, ◌<◌, ◌≤◌, ◌≡◌, ap, ◌≢◌, refl, sym, ◌∙◌, true, false, Bool, ◌⊎◌, inl,
  inr, none, some, List, [], ◌∷◌, arith, ltb, leb, ◌==◌, Bool-cases, ==_iff, if◌then◌else◌, length,
  get_or, set, length-set, get_or-set_self, get_or-set_ne, get_or-replicate, length-replicate,
}
use march.Types.{max_slots}
use march.Database.{Database}
use march.Dictionary.{Dictionary}
use march.Compiler.{Compiler, compiler_create, first_free, allocate_slot, free_slot}

abbrev pub in_use : Compiler → ℕ → Bool
in_use comp i = get_or comp.slot_used i false

-- The table has its size, and `slot_count` is past every slot in use.
pub record IsValid (comp : Compiler) : Type 0 where
  pub size : length comp.slot_used ≡ max_slots
  pub peak : (i : ℕ) → in_use comp i ≡ true → i < comp.slot_count
  pub bounded : comp.slot_count ≤ max_slots

pub create-IsValid : (dict : Dictionary) (db : Database) → IsValid (compiler_create dict db)
unfolding compiler_create
create-IsValid dict db = record {
  size = length-replicate 256 false;
  peak = λ i h. absurd (ground (arith, get_or-replicate 256 i false));
  bounded = omega arith;
}

record IsFirst (used : List Bool) (i : ℕ) : Type 0 where
  inside : i < length used
  free : get_or used i false ≡ false
  before : (j : ℕ) → j < i → get_or used j false ≡ true

first_free-cases :
    (used : List Bool)
    → ((first_free used ≡ none) × ((j : ℕ) → j < length used → get_or used j false ≡ true))
      ⊎ ((i : ℕ) × (first_free used ≡ some i) × IsFirst used i)
unfolding first_free
first_free-cases [] = inl (refl, λ j h. absurd (omega arith))
first_free-cases (false ∷ used) =
    inr
      (0, refl, record { inside = omega arith; free = refl; before = λ j h. absurd (omega arith) })
first_free-cases (true ∷ used) = elim (first_free-cases used) [
  | inl (e, full) ↦ inl (rw e, all_used used full)
  | inr (i, e, first) ↦ inr (
    suc i,
    rw e,
    record {
      inside = omega (arith, first.inside);
      free = first.free;
      before = used_before used i first.before;
    },
  )
]
  where
    all_used :
        (used : List Bool)
        → ((j : ℕ) → j < length used → get_or used j false ≡ true)
        → (j : ℕ) → j < length (true ∷ used)
        → get_or (true ∷ used) j false ≡ true
    all_used used full zero h = refl
    all_used used full (suc j) h = full j (omega arith)

    used_before :
        (used : List Bool) (i : ℕ)
        → ((j : ℕ) → j < i → get_or used j false ≡ true)
        → (j : ℕ) → j < suc i
        → get_or (true ∷ used) j false ≡ true
    used_before used i full zero h = refl
    used_before used i full (suc j) h = full j (omega arith)

-- A slot that was free is taken, and no smaller one was free; the others stay as they were.
pub record Takes (comp : Compiler) (i : ℕ) (after : Compiler) : Type 0 where
  pub result : allocate_slot comp ≡ (some i, after)
  pub inside : i < max_slots
  pub was_free : in_use comp i ≡ false
  pub first : (j : ℕ) → j < i → in_use comp j ≡ true
  pub taken : in_use after i ≡ true
  pub others : (j : ℕ) → i ≢ j → in_use after j ≡ in_use comp j
  pub valid : IsValid after

-- `allocate_slot` takes the first free slot and keeps the invariant, or it fails, changes nothing,
-- and all the slots are in use.
pub allocate_slot-Takes :
    (comp : Compiler)
    → IsValid comp
    → ((i : ℕ) × (after : Compiler) × Takes comp i after)
      ⊎ ((allocate_slot comp ≡ (none, comp)) × ((i : ℕ) → i < max_slots → in_use comp i ≡ true))
unfolding allocate_slot
allocate_slot-Takes comp ok = elim (first_free-cases comp.slot_used) [
  | inl (e, full) ↦ inr (rw (e, allocate_slot), λ i h. full i (omega (arith, ok.size)))
  | inr (i, e, first) ↦
      let taken = get_or-set_self comp.slot_used i true false first.inside in
      let others = λ (j : ℕ) (n : i ≢ j). get_or-set_ne comp.slot_used i j true false n in
      let inside : i < max_slots = omega (arith, first.inside, ok.size) in
      inl (
        i,
        record comp {
          slot_used = set comp.slot_used i true;
          slot_count = if leb comp.slot_count i then i + 1 else comp.slot_count;
        },
        record {
          result = rw (e, allocate_slot);
          inside = inside;
          was_free = first.free;
          first = first.before;
          taken = taken;
          others = others;
          valid = record {
            size = length-set comp.slot_used i true ∙ ok.size;
            peak = λ j h. elim (Bool-cases (i == j)) [
              | inl same ↦ ground arith
              | inr other ↦
                  let old = ok.peak j (sym (others j (λ q. ground arith)) ∙ h) in ground arith
            ];
            bounded = ground (arith, ok.bounded);
          };
        },
      )
]

free_slot-Takes :
    (comp : Compiler) (i : ℕ) (after : Compiler)
    → IsValid comp
    → Takes comp i after
    → (j : ℕ) → in_use (free_slot after (some i)) j ≡ in_use comp j
unfolding free_slot
free_slot-Takes comp i after ok takes j =
    let inside : ltb i max_slots ≡ true = ground (arith, takes.inside) in
    rw inside (elim (Bool-cases (i == j)) [
      | inl same ↦
          let e = (==_iff i j).0 same in
          rw (sym e) (
            get_or-set_self after.slot_used i false false
              (omega (arith, takes.inside, takes.valid.size))
            ∙ sym takes.was_free)
      | inr other ↦
          let n : i ≢ j = λ q. ground arith in
          get_or-set_ne after.slot_used i j false false n ∙ takes.others j n
    ])

-- Freeing the slot that was just allocated makes it free again and leaves the others.
pub free_slot-allocate_slot :
    (comp : Compiler) (i : ℕ) (after : Compiler)
    → IsValid comp
    → allocate_slot comp ≡ (some i, after)
    → (j : ℕ) → in_use (free_slot after (some i)) j ≡ in_use comp j
free_slot-allocate_slot comp i after ok made j = elim (allocate_slot-Takes comp ok) [
  | inl (k, c, takes) ↦
      let same = sym takes.result ∙ made in
      let slot : k ≡ i = ground (arith, same) in
      let state : c ≡ after = ap (λ (r : Option ℕ × Compiler). r.1) same in
      rw (sym slot, sym state) (free_slot-Takes comp k c ok takes j)
  | inr (full, all) ↦ absurd (ground (arith, sym full ∙ made))
]
