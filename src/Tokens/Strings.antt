-- ===== src/Tokens/Strings.antt =====
-- src/tokens.c: a string that is written with its quotes and backslashes escaped is read back.
use mathlib.Core.List.{append_assoc}
use march.Prelude.{
  ℕ, suc, ◌+◌, ◌≤◌, ◌≡◌, refl, ◌∙◌, true, false, Bool-cases, ◌||◌, inl, inr, some, List, [], ◌∷◌,
  ◌++◌, arith, ◌==◌, ==_iff, if◌then◌else◌, length, length-append, append-empty,
}
use march.Tokens.{
  Token, TokenStream, tok_string, isspace, skip_whitespace, skip_loop, put, string_loop,
  string_token, read_string, read_word, next_loop, token_stream_next,
}

-- A backslash before each quote and each backslash.
abbrev pub escaped : List ℕ → List ℕ
escaped [] = []
escaped (c ∷ text) =
    let rest = escaped text in if c == 34 || c == 92 then 92 ∷ c ∷ rest else c ∷ rest

-- What may follow a string: the end of the file, or whitespace.
abbrev pub Ends : List ℕ → Type 0
Ends [] = Unit
Ends (c ∷ rest) = isspace c ≡ true

put_room :
    (buffer : List ℕ) (c : ℕ) → suc (length buffer) ≤ 1023 → put 1023 buffer c ≡ buffer ++ c ∷ []
put_room buffer c room = ground arith

plain_step :
    (buffer : List ℕ) (column c : ℕ) (rest : List ℕ)
    → (c == 92) ≡ false
    → (c == 34) ≡ false
    → string_loop buffer column (c ∷ rest) ≡ string_loop (put 1023 buffer c) (column + 1) rest
unfolding string_loop
plain_step buffer column c [] slash quote = rw quote refl
plain_step buffer column c (next ∷ rest) slash quote = rw (slash, quote) refl

quote_step :
    (buffer : List ℕ) (column : ℕ) (rest : List ℕ)
    → string_loop buffer column (92 ∷ 34 ∷ rest)
      ≡ string_loop (put 1023 buffer 34) (column + 2) rest
unfolding string_loop
quote_step buffer column rest = refl

slash_step :
    (buffer : List ℕ) (column : ℕ) (rest : List ℕ)
    → string_loop buffer column (92 ∷ 92 ∷ rest)
      ≡ string_loop (put 1023 buffer 92) (column + 2) rest
unfolding string_loop
slash_step buffer column rest = refl

last_quote :
    (buffer : List ℕ) (column : ℕ) (rest : List ℕ)
    → Ends rest
    → string_loop buffer column (34 ∷ rest) ≡ some (buffer, (rest, column + 1))
unfolding string_loop
last_quote buffer column [] ends = refl
last_quote buffer column (c ∷ rest) ends = rw ends refl

-- The loop reads the escaped text into a buffer that has room for it.
escaped_loop :
    (text buffer : List ℕ) (column : ℕ) (rest : List ℕ)
    → length buffer + length text ≤ 1023
    → Ends rest
    → (column' : ℕ) × (string_loop buffer column (escaped text ++ 34 ∷ rest)
        ≡ some (buffer ++ text, (rest, column')))
escaped_loop [] buffer column rest room ends =
    (column + 1, rw (append-empty buffer) (last_quote buffer column rest ends))
escaped_loop (c ∷ text) buffer column rest room ends =
    let fits : suc (length buffer) ≤ 1023 = omega arith in
    let more : length (buffer ++ c ∷ []) + length text ≤ 1023 =
      omega (arith, length-append buffer (c ∷ [])) in
    elim (Bool-cases (c == 34)) [
      | inl quote ↦
          let (column', e) =
            escaped_loop text (buffer ++ 34 ∷ []) (column + 2) rest
              (omega (arith, length-append buffer (34 ∷ []))) ends in
          rw ((==_iff c 34).0 quote) (
            column',
            quote_step buffer column (escaped text ++ 34 ∷ rest)
                ∙ rw (put_room buffer 34 fits) (e ∙ rw (append_assoc buffer (34 ∷ []) text) refl),
          )
      | inr other ↦ elim (Bool-cases (c == 92)) [
        | inl slash ↦
            let (column', e) =
              escaped_loop text (buffer ++ 92 ∷ []) (column + 2) rest
                (omega (arith, length-append buffer (92 ∷ []))) ends in
            rw ((==_iff c 92).0 slash) (
              column',
              slash_step buffer column (escaped text ++ 34 ∷ rest)
                  ∙ rw (put_room buffer 92 fits) (e ∙ rw (append_assoc buffer (92 ∷ []) text) refl),
            )
        | inr plain ↦
            let (column', e) = escaped_loop text (buffer ++ c ∷ []) (column + 1) rest more ends in
            rw (other, plain)
              (
                column',
                plain_step buffer column c (escaped text ++ 34 ∷ rest) plain other
                    ∙ rw (put_room buffer c fits) (e ∙ rw (append_assoc buffer (c ∷ []) text) refl),
              )
      ]
    ]

abbrev pub at_place : ℕ → ℕ → List ℕ → TokenStream
at_place line column rest = record { rest = rest; line = line; column = column; eof = false }

abbrev pub string_of : ℕ → ℕ → List ℕ → Token
string_of line column text = record {
  type = tok_string;
  text = text;
  number = 0;
  line = line;
  column = column;
}

read_string-eq :
    (line column column' : ℕ) (text rest : List ℕ)
    → string_loop [] (column + 1) (escaped text ++ 34 ∷ rest) ≡ some (text, (rest, column'))
    → read_string
        (at_place line column (34 ∷ (escaped text ++ 34 ∷ rest)))
        (escaped text ++ 34 ∷ rest)
      ≡ (some (string_of line column text), at_place line column' rest)
unfolding read_string string_token
read_string-eq line column column' text rest e = rw e refl

-- On a stream whose file goes on with a quote, a text of at most 1023 bytes with its quotes and
-- backslashes escaped, a quote, and whitespace or the end, the next token is the string with that
-- text, and the file is left behind it.
pub token_stream_next-string :
    (line column : ℕ) (text rest : List ℕ)
    → length text ≤ 1023
    → Ends rest
    → (column' : ℕ) × (token_stream_next (at_place line column (34 ∷ (escaped text ++ 34 ∷ rest)))
        ≡ some (some (string_of line column text), at_place line column' rest))
unfolding token_stream_next next_loop skip_whitespace skip_loop read_word
token_stream_next-string line column text rest few ends =
    let (column', e) = escaped_loop text [] (column + 1) rest (omega arith) ends in
    let read = read_string-eq line column column' text rest e in (column', rw (read, read) refl)
