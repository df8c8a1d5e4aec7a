-- ===== src/Dictionary.antt =====
-- src/dictionary.h and src/dictionary.c: the hash table of words, with overload resolution by type.
-- A name is the list of its bytes. A type stack is passed as an array, bottom first. The address of
-- a primitive, an immediate word's handler and a stored definition are pointers that the dictionary
-- only keeps, so they are numbers. `none` as a score stands for -1.
pub mod Score
pub mod Chains
pub mod Best
pub mod Find
pub mod Parse
mod Examples
use march.Prelude.{
  ℕ, zero, suc, ◌+◌, ◌-◌, ◌*◌, ◌%◌, ◌^◌, Bool, ◌&&◌, ◌||◌, Option, none, some, List, [], ◌∷◌, ltb,
  leb, ◌==◌, if◌then◌else◌, ◌>>=◌, bytes_eq, length, get_or, set, drop, replicate,
}
use march.Types.{type_unknown, type_i64, type_u64, type_any, type_var_a, is_type_var}

-- `inputs` and `outputs` up to their counts.
pub record TypeSig : Type 0 where
  pub inputs : List ℕ
  pub outputs : List ℕ

pub record DictEntry : Type 0 where
  pub name : List ℕ
  pub addr : ℕ
  pub cid : Option (List ℕ)
  pub prim_id : ℕ
  pub signature : TypeSig
  pub is_primitive : Bool
  pub is_immediate : Bool
  pub handler : Option ℕ
  pub word_def : Option ℕ
  pub priority : ℕ

pub record Dictionary : Type 0 where
  pub buckets : List (List DictEntry)
  pub entry_count : ℕ

abbrev pub bucket_count : ℕ
bucket_count = 256

-- A byte as a `char`, which is signed, converted to `unsigned long`.
abbrev pub char_value : ℕ → ℕ
char_value b = if ltb b 128 then b else 2 ^ 64 - 256 + b

hash_loop : ℕ → List ℕ → ℕ
hash_loop hash [] = hash
hash_loop hash (c ∷ str) = hash_loop ((hash * 2 ^ 5 + hash + char_value c) % 2 ^ 64) str

unfoldable pub hash_string : List ℕ → ℕ
unfolding hash_loop
hash_string str = hash_loop 5381 str

unfoldable pub dict_create : Dictionary
dict_create = record { buckets = replicate bucket_count []; entry_count = 0 }

-- The loop of `dict_add` over the inputs.
pub priority_of : List ℕ → ℕ
priority_of [] = 0
priority_of (input ∷ inputs) =
    (if input == type_i64 || input == type_u64 then 100 else if input == type_any then 10 else 0)
    + priority_of inputs

-- What `dict_add` takes besides the name, and the entry that it makes.
pub record Definition : Type 0 where
  pub addr : ℕ
  pub cid : Option (List ℕ)
  pub prim_id : ℕ
  pub sig : Option TypeSig
  pub is_primitive : Bool
  pub is_immediate : Bool
  pub handler : Option ℕ
  pub word_def : Option ℕ

abbrev sig_or_empty : Option TypeSig → TypeSig
sig_or_empty none = record { inputs = []; outputs = [] }
sig_or_empty (some sig) = sig

unfoldable pub make_entry : List ℕ → Definition → DictEntry
make_entry name def = record {
  name = name;
  addr = def.addr;
  cid = def.cid;
  prim_id = def.prim_id;
  signature = sig_or_empty def.sig;
  is_primitive = def.is_primitive;
  is_immediate = def.is_immediate;
  handler = def.handler;
  word_def = def.word_def;
  priority = priority_of (sig_or_empty def.sig).inputs;
}

unfoldable pub bucket_of : List ℕ → ℕ
unfolding hash_string
bucket_of name = hash_string name % bucket_count

unfoldable pub dict_add : Dictionary → List ℕ → Definition → Dictionary
unfolding bucket_of make_entry priority_of
dict_add dict name def =
    let bucket = bucket_of name in
    record {
      buckets = set dict.buckets bucket (make_entry name def ∷ get_or dict.buckets bucket []);
      entry_count = dict.entry_count + 1;
    }

unfoldable pub find_name : List ℕ → List DictEntry → Option DictEntry
find_name name [] = none
find_name name (entry ∷ chain) =
    if bytes_eq entry.name name then some entry else find_name name chain

unfoldable pub dict_lookup : Dictionary → List ℕ → Option DictEntry
unfolding bucket_of find_name
dict_lookup dict name = find_name name (get_or dict.buckets (bucket_of name) [])

-- One pass of the loop of `match_score`: the points and the bindings after it.
unfoldable pub match_input : List ℕ → ℕ → ℕ → Option (ℕ × List ℕ)
match_input bindings sig_type stack_type =
    if is_type_var sig_type
    then (let bound = get_or bindings (sig_type - type_var_a) type_unknown in
        if bound == type_unknown
        then some (80, set bindings (sig_type - type_var_a) stack_type)
        else if bound == stack_type
        then some (80, bindings)
        else none)
    else if sig_type == type_any
    then some (10, bindings)
    else if stack_type == sig_type
    then some (100, bindings)
    else if stack_type == type_unknown
    then some (50, bindings)
    else none

unfoldable pub match_loop : List ℕ → ℕ → List ℕ → List ℕ → Option ℕ
match_loop bindings score [] stack = some score
match_loop bindings score (sig_type ∷ inputs) [] = none
match_loop bindings score (sig_type ∷ inputs) (stack_type ∷ stack) =
    match_input bindings sig_type stack_type >>= λ r. match_loop r.1 (score + r.0) inputs stack

abbrev pub unbound : List ℕ
unbound = replicate 26 type_unknown

unfoldable pub match_score : TypeSig → List ℕ → Option ℕ
unfolding match_input match_loop
match_score sig type_stack =
    if ltb (length type_stack) (length sig.inputs)
    then none
    else match_loop unbound 0 sig.inputs (drop (length type_stack - length sig.inputs) type_stack)

-- The candidate against the best so far, with its score.
pub better : DictEntry → ℕ → Option (DictEntry × ℕ) → Option (DictEntry × ℕ)
better entry score none = some (entry, score)
better entry score (some (best, best_score)) =
    if ltb best_score score
    then some (entry, score)
    else if score == best_score && ltb best.priority entry.priority
    then some (entry, best_score)
    else some (best, best_score)

pub consider : List ℕ → List ℕ → DictEntry → Option (DictEntry × ℕ) → Option (DictEntry × ℕ)
unfolding better
consider name type_stack entry best =
    if bytes_eq entry.name name
    then elim (match_score entry.signature type_stack) [
      | none ↦ best
      | some score ↦ better entry score best
    ]
    else best

unfoldable pub best_loop :
    List ℕ → List ℕ → Option (DictEntry × ℕ) → List DictEntry → Option (DictEntry × ℕ)
best_loop name type_stack best [] = best
best_loop name type_stack best (entry ∷ chain) =
    best_loop name type_stack (consider name type_stack entry best) chain

unfoldable pub dict_lookup_typed : Dictionary → List ℕ → List ℕ → Option DictEntry
unfolding bucket_of best_loop consider
dict_lookup_typed dict name type_stack =
    best_loop name type_stack none (get_or dict.buckets (bucket_of name) []) >>= λ r. some r.0
