-- ===== src/Hamt/Examples.antt =====
-- src/hamt.c at concrete inputs: the map that holds 100 under 10, and the theorems on it.
use march.Prelude.{
  ℕ, ◌≡◌, ◌≢◌, refl, Option, none, some, arith, ◌>>=◌, ◌==◌, ==_iff, sym, ◌∙◌, Bool-cases, inl, inr,
  bit_or, ◌^◌, if◌then◌else◌,
}
use march.Hamt.{
  hash, popcount, slot_index, chunk, tag_value, untag_value, slot_at, insert_at, remove_at,
  replace_at, Map, node, leaf, Slots, end, cons, new, get, set, remove, hash_loop, popcount_loop,
  get_loop, read_node, set_impl, set_node, set_slot, remove_impl, remove_node,
}
use march.Hamt.Bitmap.{ones, clear, slot_index-eq-ones}
use march.Hamt.Dense.{dense, slot_count, Fits, dense-insert, dense-remove}
use march.Hamt.Place.{lookup, IsValid, or_zero, get-eq-lookup}
use march.Hamt.Write.{Updates}
use march.Hamt.Insert.{Distinct}
use march.Hamt.Update.{SetsKey, set-SetsKey}
use march.Hamt.Delete.{remove-Updates}

run : Option Map → ℕ → Option ℕ
unfolding hash popcount popcount_loop slot_index chunk tag_value untag_value slot_at insert_at
    remove_at replace_at get get_loop read_node set set_impl set_node set_slot remove remove_impl
    remove_node new
run m key = m >>= λ r. get r key

three : Option Map
three = do a ← set new 10 100; b ← set a 20 200; set b 30 300

three-get : run three 20 ≡ some 200
unfolding run three
three-get = refl

abbrev one_slots : Slots
one_slots = cons (leaf 10 101) end

-- What `set new 10 100` makes.
abbrev one : Map
one = some (node 32768 1 one_slots)

one-set : set new 10 100 ≡ some one
unfolding set set_impl set_node new hash hash_loop chunk tag_value insert_at popcount_loop popcount
    slot_index
one-set = refl

one-SetsKey : SetsKey new 10 100 one
unfolding new lookup
one-SetsKey =
    let (m, sets) = set-SetsKey none 10 100 tt (omega arith) (λ j v e h. absurd cc) in
    let same : m ≡ one = ground (arith, sym sets.result ∙ one-set) in rw same at sets

one-lookup : (j : ℕ) → lookup one j ≡ (if 10 == j then some 100 else none)
unfolding lookup new
one-lookup j = one-SetsKey.updates j

hashes-differ : hash 10 ≢ hash 20
unfolding hash hash_loop
hashes-differ e = omega arith

one-Distinct : Distinct 20 (lookup one)
one-Distinct j v e h = elim (Bool-cases (10 == j)) [
  | inl same ↦ absurd (hashes-differ (rw (sym ((==_iff 10 j).0 same)) at h))
  | inr other ↦ absurd (ground (arith, one-lookup j))
]

set-SetsKey_example : (m : Map) × SetsKey one 20 201 m
set-SetsKey_example = set-SetsKey one 20 201 one-SetsKey.valid (omega arith) one-Distinct

remove-Updates_example :
    (m : Map) × (remove one 10 ≡ some m) × IsValid m × Updates 10 none (lookup one) (lookup m)
remove-Updates_example = remove-Updates one 10 one-SetsKey.valid

get-eq-lookup_example : get one 10 ≡ some (or_zero (lookup one 10))
get-eq-lookup_example = get-eq-lookup one 10 one-SetsKey.valid

one-Fits : Fits 32768 one_slots
unfolding slot_count
one-Fits = record { width = omega arith; counted = refl }

slot_index-eq-ones_example : slot_index 32768 17 ≡ ones 17 32768
slot_index-eq-ones_example = slot_index-eq-ones 32768 17 (omega arith)

dense-insert_example :
    dense (bit_or 32768 (2 ^ 17)) (insert_at one_slots (ones 17 32768) (leaf 20 201)) 15
    ≡ (if 15 == 17 then some (leaf 20 201) else dense 32768 one_slots 15)
dense-insert_example = dense-insert 32768 17 one_slots (omega arith) one-Fits (leaf 20 201) 15 refl

dense-remove_example :
    dense (clear 32 32768 15) (remove_at one_slots (ones 15 32768)) 15
    ≡ (if 15 == 15 then none else dense 32768 one_slots 15)
dense-remove_example = dense-remove 32768 15 one_slots (omega arith) one-Fits 15 refl
