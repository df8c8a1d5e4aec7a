-- ===== src/Hamt.antt =====
-- src/hamt.h and src/hamt.c: the persistent map from 64-bit keys to 64-bit values.
-- A node's header and slot array are a `Node`; a slot's word is a leaf's tagged value or the
-- address of a child, told apart by its lowest bit, so a slot is a `leaf` or a `branch`. Nodes are
-- never changed in place. `none` as a map is the null pointer, and `none` as a result stands for
-- what C leaves undefined: a read past the slot array, or a shift by 64 bits or more, which is
-- what the thirteenth level and those below would need. Allocation is taken to succeed.
pub mod Bitmap
pub mod Dense
pub mod Place
pub mod Write
pub mod Insert
pub mod Update
pub mod Delete
mod Examples
use march.Prelude.{
  ℕ, zero, suc, ◌+◌, ◌-◌, ◌*◌, ◌/◌, ◌%◌, ◌^◌, bit_and, bit_or, bit_xor, Bool, true, false, Option,
  none, some, ◌>>=◌, ◌==◌, if◌then◌else◌,
}

-- The loop of `hamt_hash` with the bytes left, the rest of the key and the hash so far.
hash_loop : ℕ → ℕ → ℕ → ℕ
hash_loop zero key hash = hash
hash_loop (suc left) key hash =
    hash_loop left (key / 256) (bit_xor hash (key % 256) * 0x100000001b3 % 2 ^ 64)

pub hash : ℕ → ℕ
unfolding hash_loop
hash key = hash_loop 8 key 0xcbf29ce484222325

-- `while (bitmap)`; a bitmap has 32 digits, which is the fuel.
popcount_loop : ℕ → ℕ → ℕ → ℕ
popcount_loop zero bitmap count = count
popcount_loop (suc fuel) bitmap count =
    let rest = popcount_loop fuel (bitmap / 2) (count + bit_and bitmap 1) in
    if bitmap == 0 then count else rest

pub popcount : ℕ → ℕ
popcount bitmap = popcount_loop 32 bitmap 0

-- A shift of the 32-bit 1 by 32 or more is undefined; here it takes the count's low five digits, as
-- the instruction of x86 does. The operations pass a chunk, which is below 32.
pub slot_index : ℕ → ℕ → ℕ
slot_index bitmap bit = popcount (bit_and bitmap (2 ^ (bit % 32) - 1))

pub chunk : ℕ → ℕ → ℕ
chunk hash level = bit_and (hash / 2 ^ (level * 5)) 0x1f

pub tag_value : ℕ → ℕ
tag_value value = bit_or value 1

pub untag_value : ℕ → ℕ
untag_value value = bit_and value (2 ^ 64 - 2)

mutual
  -- bitmap, count, slots
  pub data Node : Type 0 where
    node : ℕ → ℕ → Slots → Node

  -- `leaf` has the key and the tagged value.
  pub data Slot : Type 0 where
    leaf : ℕ → ℕ → Slot
    branch : Node → Slot

  pub data Slots : Type 0 where
    end : Slots
    cons : Slot → Slots → Slots

-- `slots[i]`
pub slot_at : Slots → ℕ → Option Slot
slot_at end i = none
slot_at (cons s rest) zero = some s
slot_at (cons s rest) (suc i) = slot_at rest i

-- The copies around a new slot: those before `i`, the slot, those from `i` on.
pub insert_at : Slots → ℕ → Slot → Slots
insert_at slots zero s = cons s slots
insert_at end (suc i) s = cons s end
insert_at (cons t rest) (suc i) s = cons t (insert_at rest i s)

-- The copies around a dropped slot.
pub remove_at : Slots → ℕ → Slots
remove_at end i = end
remove_at (cons t rest) zero = rest
remove_at (cons t rest) (suc i) = cons t (remove_at rest i)

-- A cloned slot array with one slot written.
pub replace_at : Slots → ℕ → Slot → Slots
replace_at end i s = end
replace_at (cons t rest) zero s = cons s rest
replace_at (cons t rest) (suc i) s = cons t (replace_at rest i s)

abbrev pub Map : Type 0
Map = Option Node

pub new : Map
new = none

node_count : Node → ℕ
node_count (node bitmap count slots) = count

pub size : Map → ℕ
unfolding node_count
size none = 0
size (some n) = node_count n

read_slot : (Node → Option ℕ) → ℕ → Slot → Option ℕ
read_slot descend key (leaf k v) = if k == key then some (untag_value v) else some 0
read_slot descend key (branch child) = descend child

-- One pass of the loop of `hamt_get`, with the rest of the loop as `descend`.
read_node : (Node → Option ℕ) → ℕ → ℕ → Node → Option ℕ
unfolding read_slot
read_node descend key bit (node bitmap count slots) =
    if bit_and bitmap (2 ^ bit) == 0
    then some 0
    else (slot_at slots (slot_index bitmap bit) >>= read_slot descend key)

-- `left` is the number of levels that the hash still has digits for.
get_loop : ℕ → ℕ → ℕ → Node → Option ℕ
get_loop zero level key n = none
get_loop (suc left) level key n =
    read_node (λ child. get_loop left (suc level) key child) key (chunk (hash key) level) n

pub get : Map → ℕ → Option ℕ
get none key = some 0
get (some n) key = get_loop 13 0 key n

-- `hamt_set_impl` at the next level: the child or null, the key, the value, and `*inserted`.
abbrev SetChild : Type 0
SetChild = Map → ℕ → ℕ → Bool → Option (Node × Bool)

set_slot : SetChild → ℕ → ℕ → Slots → ℕ → ℕ → ℕ → Bool → Slot → Option (Node × Bool)
set_slot recur bitmap count slots idx key value inserted (leaf old_key old) =
    if old_key == key
    then some (node bitmap count (replace_at slots idx (leaf old_key (tag_value value))), inserted)
    else do
      (child, inserted₁) ← recur none old_key (untag_value old) inserted
      (child', inserted₂) ← recur (some child) key value inserted₁
      some (node bitmap ((count + 1) % 2 ^ 32) (replace_at slots idx (branch child')), inserted₂)
set_slot recur bitmap count slots idx key value inserted (branch child) = do
  (child', inserted') ← recur (some child) key value inserted
  some (
    node bitmap (if inserted' then (count + 1) % 2 ^ 32 else count)
        (replace_at slots idx (branch child')),
    inserted',
  )

set_node : SetChild → ℕ → ℕ → ℕ → Bool → Node → Option (Node × Bool)
set_node recur bit key value inserted (node bitmap count slots) =
    if bit_and bitmap (2 ^ bit) == 0
    then some (
      node (bit_or bitmap (2 ^ bit)) ((count + 1) % 2 ^ 32)
          (insert_at slots (slot_index bitmap bit) (leaf key (tag_value value))),
      true,
    )
    else (slot_at slots (slot_index bitmap bit)
        >>= set_slot recur bitmap count slots (slot_index bitmap bit) key value inserted)

set_impl : ℕ → ℕ → SetChild
set_impl zero level m key value inserted = none
set_impl (suc left) level none key value inserted =
    some (node (2 ^ chunk (hash key) level) 1 (cons (leaf key (tag_value value)) end), true)
set_impl (suc left) level (some n) key value inserted =
    set_node (λ m k v i. set_impl left (suc level) m k v i) (chunk (hash key) level) key value
      inserted n

pub set : Map → ℕ → ℕ → Option Map
set m key value = do (n, _) ← set_impl 13 0 m key value false; some (some n)

-- What `hamt_remove_impl` returns: the node that it was given, null, or a new node. The caller
-- compares the pointers, and `*removed` is true in the last two cases.
pub data Removal : Type 0 where
  same gone : Removal
  changed : Node → Removal

drop_slot : ℕ → ℕ → Slots → ℕ → Removal
drop_slot bitmap count slots bit =
    if popcount bitmap == 1
    then gone
    else changed (
        node (bit_and bitmap (2 ^ 32 - 1 - 2 ^ bit)) ((count + (2 ^ 32 - 1)) % 2 ^ 32)
          (remove_at slots (slot_index bitmap bit)))

put_child : ℕ → ℕ → Slots → ℕ → Removal → Removal
unfolding drop_slot
put_child bitmap count slots bit same = same
put_child bitmap count slots bit gone = drop_slot bitmap count slots bit
put_child bitmap count slots bit (changed child) = changed (
    node bitmap ((count + (2 ^ 32 - 1)) % 2 ^ 32)
      (replace_at slots (slot_index bitmap bit) (branch child)))

remove_slot : (Node → Option Removal) → ℕ → ℕ → Slots → ℕ → ℕ → Slot → Option Removal
unfolding drop_slot put_child
remove_slot recur bitmap count slots bit key (leaf k v) =
    if k == key then some (drop_slot bitmap count slots bit) else some same
remove_slot recur bitmap count slots bit key (branch child) =
    recur child >>= λ r. some (put_child bitmap count slots bit r)

remove_node : (Node → Option Removal) → ℕ → ℕ → Node → Option Removal
unfolding remove_slot
remove_node recur bit key (node bitmap count slots) =
    if bit_and bitmap (2 ^ bit) == 0
    then some same
    else (slot_at slots (slot_index bitmap bit) >>= remove_slot recur bitmap count slots bit key)

remove_impl : ℕ → ℕ → ℕ → Node → Option Removal
remove_impl zero level key n = none
remove_impl (suc left) level key n =
    remove_node (λ child. remove_impl left (suc level) key child) (chunk (hash key) level) key n

pub removed_from : Node → Removal → Map
removed_from n same = some n
removed_from n gone = none
removed_from n (changed n') = some n'

pub remove : Map → ℕ → Option Map
unfolding removed_from
remove none key = some none
remove (some n) key = remove_impl 13 0 key n >>= λ r. some (removed_from n r)
