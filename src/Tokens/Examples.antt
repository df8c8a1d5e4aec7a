-- ===== src/Tokens/Examples.antt =====
-- src/tokens.c at concrete inputs: the file `-- a` on one line and `w 12` on the next, and a
-- string.
use march.Prelude.{ℕ, ◌≡◌, false, refl, Option, some, List, [], ◌∷◌, ◌++◌, arith}
use march.Tokens.{Token, TokenStream, token_stream_create, token_stream_next}
use march.Tokens.Next.{Advances, token_stream_next_total}
use march.Tokens.Strings.{escaped, at_place, string_of, token_stream_next-string}

abbrev file : List ℕ
file = 45 ∷ 45 ∷ 32 ∷ 97 ∷ 10 ∷ 119 ∷ 32 ∷ 49 ∷ 50 ∷ []

file-going : (token_stream_create file).eof ≡ false
unfolding token_stream_create
file-going = refl

token_stream_next_total_example :
    (r : Option Token × TokenStream) × (token_stream_next (token_stream_create file) ≡ some r)
    × Advances (token_stream_create file) r
token_stream_next_total_example = token_stream_next_total (token_stream_create file) file-going

-- a"b\
abbrev text : List ℕ
text = 97 ∷ 34 ∷ 98 ∷ 92 ∷ []

token_stream_next-string_example :
    (column' : ℕ) × (token_stream_next (at_place 2 5 (34 ∷ (escaped text ++ 34 ∷ 32 ∷ 59 ∷ [])))
      ≡ some (some (string_of 2 5 text), at_place 2 column' (32 ∷ 59 ∷ [])))
token_stream_next-string_example =
    token_stream_next-string 2 5 text (32 ∷ 59 ∷ []) (omega arith) refl
