-- ===== src/Compiler/Specialize.antt =====
-- src/compiler.c: the cache of specializations behaves as a table from a word's name and input
-- types to a CID, in which the first entry of a key stays.
use march.Prelude.{
  ℕ, ◌≤◌, ◌<◌, ◌≡◌, refl, ◌∙◌, true, false, ◌&&◌, inl, inr, Option, none, some, List, [], ◌∷◌, ◌++◌,
  arith, leb, ltb, Bool-cases, bytes_eq, bytes_eq→eq, bytes_eq_refl, length,
}
use march.Compiler.{
  Compiler, Specialization, max_specializations, is_specialization, find_specialization,
  specialization_lookup, specialization_store,
}

abbrev pub or_else : Option (List ℕ) → Option (List ℕ) → Option (List ℕ)
or_else none other = other
or_else (some cid) other = some cid

find_specialization-append :
    (name types : List ℕ) (specs more : List Specialization)
    → find_specialization name types (specs ++ more)
      ≡ or_else (find_specialization name types specs) (find_specialization name types more)
unfolding find_specialization
find_specialization-append name types [] more = refl
find_specialization-append name types (spec ∷ specs) more =
    elim (Bool-cases (is_specialization name types spec)) [
      | inl own ↦ rw own
      | inr other ↦ rw other (find_specialization-append name types specs more)
    ]

abbrev pub entry_of : List ℕ → List ℕ → List ℕ → Specialization
entry_of name types cid = record { word_name = name; input_types = types; cid = cid }

-- What a lookup finds after a store, where there was room.
pub record Stores (comp : Compiler) (name types cid : List ℕ) (after : Compiler) : Type 0 where
  pub result : specialization_store comp name types cid ≡ some (true, after)
  pub own :
      specialization_lookup after name types
      ≡ or_else (specialization_lookup comp name types) (some cid)
  pub others :
      (name' types' : List ℕ)
      → ((name ≡ name') × (types ≡ types') → ⊥)
      → specialization_lookup after name' types' ≡ specialization_lookup comp name' types'

-- With room in the cache and at most 8 types, a store succeeds. Then the key leads to what it led
-- to before, or else to the CID stored; every other key leads where it did.
pub specialization_store-Stores :
    (comp : Compiler) (name types cid : List ℕ)
    → length comp.specializations < max_specializations
    → length types ≤ 8
    → (after : Compiler) × Stores comp name types cid after
unfolding specialization_store specialization_lookup find_specialization is_specialization
specialization_store-Stores comp name types cid room few =
    let fits : ltb 8 (length types) ≡ false = ground arith in
    let free : leb max_specializations (length comp.specializations) ≡ false = ground arith in
    let specs = comp.specializations in
    let new : List Specialization = entry_of name types cid ∷ [] in
    (
      record comp { specializations = specs ++ new },
      record {
        result = rw (free, fits);
        own =
            find_specialization-append name types specs new
            ∙ rw (bytes_eq_refl name, bytes_eq_refl types);
        others = λ name' types' apart.
            find_specialization-append name' types' specs new
            ∙ elim (Bool-cases (bytes_eq name name' && bytes_eq types types')) [
              | inl same ↦ absurd (
                  apart (
                    bytes_eq→eq name name' (ground arith),
                    bytes_eq→eq types types' (ground arith),
                  ))
              | inr other ↦ rw other (or_else-none (find_specialization name' types' specs))
            ];
      },
    )
  where
    or_else-none : (o : Option (List ℕ)) → or_else o none ≡ o
    or_else-none none = refl
    or_else-none (some cid) = refl
