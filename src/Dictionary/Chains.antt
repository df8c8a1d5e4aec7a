-- ===== src/Dictionary/Chains.antt =====
-- src/dictionary.c: the hash table answers as the list of all words does, the newest first.
use mathlib.Core.Path.{subst}
use march.Prelude.{
  ℕ, ◌<◌, ◌≡◌, ◌≢◌, refl, sym, ◌∙◌, ap, false, inl, inr, Option, none, some, List, [], ◌∷◌, ◌++◌,
  arith, ◌==◌, ==_iff, Bool-cases, if◌then◌else◌, ◌>>=◌, bytes_eq, bytes_eq→eq, bytes_eq_refl,
  length, length-set, length-replicate, get_or, get_or-replicate, get_or-set_self, get_or-set_ne,
}
use march.Dictionary.{
  DictEntry, Dictionary, Definition, bucket_count, bucket_of, dict_create, dict_add, make_entry,
  find_name, dict_lookup, consider, best_loop, dict_lookup_typed,
}

-- The entries of a name, in their order.
pub named : List ℕ → List DictEntry → List DictEntry
named name [] = []
named name (entry ∷ entries) =
    let rest = named name entries in if bytes_eq entry.name name then entry ∷ rest else rest

abbrev pub chain : Dictionary → List ℕ → List DictEntry
chain dict name = get_or dict.buckets (bucket_of name) []

-- The table holds the words of `words`: the chain of each name has its words, in order.
pub record Holds (words : List DictEntry) (dict : Dictionary) : Type 0 where
  pub width : length dict.buckets ≡ bucket_count
  pub chains : (name : List ℕ) → named name (chain dict name) ≡ named name words
  pub counted : dict.entry_count ≡ length words

pub create-Holds : Holds [] dict_create
unfolding dict_create named
create-Holds = record {
  width = length-replicate {A = List DictEntry} 256 [];
  chains = λ name. ap (named name) (get_or-replicate 256 (bucket_of name) []);
  counted = refl;
}

bucket_of-lt : (name : List ℕ) → bucket_of name < bucket_count
unfolding bucket_of
bucket_of-lt name = omega arith

named_cong :
    (name : List ℕ) (entry : DictEntry) (xs ys : List DictEntry)
    → named name xs ≡ named name ys
    → named name (entry ∷ xs) ≡ named name (entry ∷ ys)
unfolding named
named_cong name entry xs ys e = rw e

named_skip :
    (name : List ℕ) (entry : DictEntry) (xs : List DictEntry)
    → bytes_eq entry.name name ≡ false
    → named name (entry ∷ xs) ≡ named name xs
unfolding named
named_skip name entry xs e = rw e

add-chains :
    (words : List DictEntry) (dict : Dictionary) (name other : List ℕ) (def : Definition)
    → Holds words dict
    → named other (chain (dict_add dict name def) other) ≡ named other (make_entry name def ∷ words)
unfolding dict_add make_entry
add-chains words dict name other def h = elim (Bool-cases (bucket_of name == bucket_of other)) [
  | inl same ↦
      let e : bucket_of name ≡ bucket_of other = (==_iff _ _).0 same in
      let inside : bucket_of other < length dict.buckets = rw h.width (bucket_of-lt other) in
      rw (e, get_or-set_self dict.buckets (bucket_of other), inside)
        (named_cong other _ _ words (h.chains other))
  | inr apart ↦
      let ne : bucket_of name ≢ bucket_of other = λ e. ground arith in
      let differ : bytes_eq name other ≡ false = elim (Bool-cases (bytes_eq name other)) [
        | inl eq ↦ absurd (ne (ap bucket_of (bytes_eq→eq name other eq)))
        | inr no_eq ↦ no_eq
      ] in
      rw (get_or-set_ne dict.buckets (bucket_of name) (bucket_of other), ne)
        (h.chains other ∙ sym (named_skip other (make_entry name def) words differ))
]

-- `dict_add` puts the new word in front.
pub add-Holds :
    (words : List DictEntry) (dict : Dictionary) (name : List ℕ) (def : Definition)
    → Holds words dict
    → Holds (make_entry name def ∷ words) (dict_add dict name def)
unfolding dict_add make_entry
add-Holds words dict name def h = record {
  width = length-set dict.buckets (bucket_of name) _ ∙ h.width;
  chains = λ other. add-chains words dict name other def h;
  counted = omega (arith, h.counted);
}

find_name-named :
    (name : List ℕ) (xs : List DictEntry) → find_name name xs ≡ find_name name (named name xs)
unfolding find_name named
find_name-named name [] = refl
find_name-named name (entry ∷ xs) = elim (Bool-cases (bytes_eq entry.name name)) [
  | inl same ↦ rw (same, same)
  | inr other ↦ rw other (find_name-named name xs)
]

-- `dict_lookup` reads the chain as it would the list.
pub dict_lookup-eq :
    (words : List DictEntry) (dict : Dictionary) (name : List ℕ)
    → Holds words dict
    → dict_lookup dict name ≡ find_name name words
unfolding dict_lookup
dict_lookup-eq words dict name h =
    find_name-named name (chain dict name)
    ∙ ap (find_name name) (h.chains name)
    ∙ sym (find_name-named name words)

-- No word of the list has the name.
abbrev pub NoneNamed : List ℕ → List DictEntry → Type 0
NoneNamed name [] = Unit
NoneNamed name (entry ∷ entries) = (entry.name ≢ name) × NoneNamed name entries

-- A word of the name such that no newer one has it, or none if no word has it. The list has the
-- newest first.
abbrev pub IsNewest : List ℕ → List DictEntry → Option DictEntry → Type 0
IsNewest name words none = NoneNamed name words
IsNewest name words (some entry) =
    (newer : List DictEntry) × (older : List DictEntry) × (words ≡ newer ++ entry ∷ older)
    × (entry.name ≡ name)
    × NoneNamed name newer

IsNewest-cons :
    (name : List ℕ) (entry : DictEntry) (words : List DictEntry) (o : Option DictEntry)
    → entry.name ≢ name
    → IsNewest name words o
    → IsNewest name (entry ∷ words) o
IsNewest-cons name entry words none other h = (other, h)
IsNewest-cons name entry words (some found) other (newer, older, e, named_so, before) =
    (entry ∷ newer, older, ap (λ (t : List DictEntry). entry ∷ t) e, named_so, (other, before))

find_name-IsNewest :
    (name : List ℕ) (words : List DictEntry) → IsNewest name words (find_name name words)
unfolding find_name
find_name-IsNewest name [] = tt
find_name-IsNewest name (entry ∷ words) = elim (Bool-cases (bytes_eq entry.name name)) [
  | inl same ↦ rw same ([], words, refl, bytes_eq→eq entry.name name same, tt)
  | inr other ↦ rw other (
      IsNewest-cons name entry words (find_name name words)
        (λ e. ground (arith, bytes_eq_refl name, ap (λ (t : List ℕ). bytes_eq t name) e))
        (find_name-IsNewest name words))
]

-- Where the table holds a list of words, the newest first, `dict_lookup` finds the word of the name
-- before which no word of the list has the name, and none only if no word has it.
pub dict_lookup-IsNewest :
    (words : List DictEntry) (dict : Dictionary) (name : List ℕ)
    → Holds words dict
    → IsNewest name words (dict_lookup dict name)
dict_lookup-IsNewest words dict name h =
    subst (IsNewest name words) (sym (dict_lookup-eq words dict name h))
      (find_name-IsNewest name words)

consider_skip :
    (name types : List ℕ) (entry : DictEntry) (best : Option (DictEntry × ℕ))
    → bytes_eq entry.name name ≡ false
    → consider name types entry best ≡ best
unfolding consider
consider_skip name types entry best other = rw other

best_loop-named :
    (name types : List ℕ) (best : Option (DictEntry × ℕ)) (xs : List DictEntry)
    → best_loop name types best xs ≡ best_loop name types best (named name xs)
unfolding best_loop named
best_loop-named name types best [] = refl
best_loop-named name types best (entry ∷ xs) = elim (Bool-cases (bytes_eq entry.name name)) [
  | inl same ↦ rw same (best_loop-named name types (consider name types entry best) xs)
  | inr other ↦
      rw (other, consider_skip name types entry best other) (best_loop-named name types best xs)
]

-- `dict_lookup_typed` chooses among all words of the name, in their order.
pub dict_lookup_typed-eq :
    (words : List DictEntry) (dict : Dictionary) (name types : List ℕ)
    → Holds words dict
    → dict_lookup_typed dict name types ≡ (best_loop name types none words >>= λ r. some r.0)
unfolding dict_lookup_typed
dict_lookup_typed-eq words dict name types h =
    ap (λ (b : Option (DictEntry × ℕ)). b >>= λ r. some r.0)
      (best_loop-named name types none (chain dict name)
        ∙ ap (best_loop name types none) (h.chains name)
        ∙ sym (best_loop-named name types none words))
