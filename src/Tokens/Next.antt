-- ===== src/Tokens/Next.antt =====
-- src/tokens.c: `token_stream_next` ends, and what it returns is progress: every token takes at
-- least one byte of the file, and none is a comment.
use march.Prelude.{
  ℕ, zero, suc, ◌+◌, ◌≤◌, ◌<◌, ◌≡◌, refl, ◌∙◌, true, false, Option, none, some, List, [], ◌∷◌,
  arith, ◌⊎◌, Bool-cases, inl, inr, ◌==◌, if◌then◌else◌, length,
}
use march.Tokens.{
  Token, TokenStream, TokenType, tok_comment, isspace, skip_loop, skip_whitespace, put, Read,
  string_loop, word_loop, special_type, comment_loop, classify, token_at, string_token, read_string,
  read_plain, read_word, is_comment, next_loop, token_stream_next,
}

-- Behind whitespace the file ends, or its next byte is none.
abbrev Skipped : ℕ → TokenStream → Type 0
Skipped before stream =
    ((stream.eof ≡ true) × (stream.rest ≡ []))
    ⊎ (c : ℕ) × (rest : List ℕ) × (stream.eof ≡ false)
      × (stream.rest ≡ c ∷ rest)
      × (isspace c ≡ false)
      × (length rest < before)

further :
    (before more : ℕ) (stream : TokenStream)
    → before ≤ more
    → Skipped before stream
    → Skipped more stream
further before more stream h (inl (e, few)) = inl (e, few)
further before more stream h (inr (c, rest, e, at, byte, few)) =
    inr (c, rest, e, at, byte, omega arith)

skip_loop-Skipped :
    (line column : ℕ) (rest : List ℕ) → Skipped (length rest) (skip_loop line column rest)
unfolding skip_loop
skip_loop-Skipped line column [] = inl (refl, refl)
skip_loop-Skipped line column (c ∷ rest) = elim (Bool-cases (isspace c)) [
  | inr byte ↦ rw byte (inr (c, rest, refl, refl, byte, omega arith))
  | inl space ↦ rw space (elim (Bool-cases (c == 10)) [
    | inl e ↦ rw e (
        further _ _ (skip_loop (line + 1) 1 rest) (omega arith)
          (skip_loop-Skipped (line + 1) 1 rest))
    | inr e ↦ rw e (
        further _ _ (skip_loop line (column + 1) rest) (omega arith)
          (skip_loop-Skipped line (column + 1) rest))
  ])
]

-- What the loops leave of the file is a part of it.
word_loop_shorter :
    (buffer : List ℕ) (column : ℕ) (rest : List ℕ)
    → length (word_loop buffer column rest).1.0 ≤ length rest
unfolding word_loop
word_loop_shorter buffer column [] = omega arith
word_loop_shorter buffer column (c ∷ rest) =
    ground (arith, word_loop_shorter (put 255 buffer c) (column + 1) rest)

comment_loop_shorter :
    (line column : ℕ) (rest : List ℕ) → length (comment_loop line column rest).0 ≤ length rest
unfolding comment_loop
comment_loop_shorter line column [] = omega arith
comment_loop_shorter line column (c ∷ rest) =
    ground (arith, comment_loop_shorter line (column + 1) rest)

-- The bytes behind a string that is read.
abbrev left_of : Option Read → ℕ
left_of none = 0
left_of (some read) = length read.1.0

further_left : (o : Option Read) (a b : ℕ) → left_of o ≤ a → a ≤ b → left_of o ≤ b
further_left o a b h k = omega arith

string_loop_shorter :
    (buffer : List ℕ) (column : ℕ) (rest : List ℕ)
    → left_of (string_loop buffer column rest) ≤ length rest
unfolding string_loop
string_loop_shorter buffer column [] = omega arith
string_loop_shorter buffer column (c ∷ []) = ground arith
string_loop_shorter buffer column (c ∷ next ∷ rest) = elim (Bool-cases (c == 92)) [
  | inl slash ↦ rw slash (elim (Bool-cases (next == 34)) [
    | inl e ↦ rw e (omega (arith, string_loop_shorter (put 1023 buffer 34) (column + 2) rest))
    | inr e ↦ rw e (elim (Bool-cases (next == 92)) [
      | inl e' ↦ rw e' (omega (arith, string_loop_shorter (put 1023 buffer 92) (column + 2) rest))
      | inr e' ↦ rw e' (
          omega (arith, string_loop_shorter (put 1023 (put 1023 buffer 92) next) (column + 2) rest))
    ])
  ])
  | inr plain ↦ rw plain (elim (Bool-cases (c == 34)) [
    | inl quote ↦ rw quote (elim (Bool-cases (isspace next)) [
      | inl space ↦ rw space (omega arith)
      | inr word ↦
          rw word
            (omega (arith, string_loop_shorter (put 1023 buffer 34) (column + 1) (next ∷ rest)))
    ])
    | inr other ↦
        rw other (omega (arith, string_loop_shorter (put 1023 buffer c) (column + 1) (next ∷ rest)))
  ])
]

-- Classifying a word takes no byte but a comment's.
classify_shorter :
    (token : Token) (stream : TokenStream) (type : Option TokenType)
    → ((classify token stream type).1.eof ≡ stream.eof)
      × (length (classify token stream type).1.rest ≤ length stream.rest)
unfolding classify
classify_shorter token stream none = (refl, omega arith)
classify_shorter token stream (some tok_comment) =
    (refl, comment_loop_shorter stream.line stream.column stream.rest)
classify_shorter token stream (some type) = (refl, omega arith)

-- What `read_word` leaves of a file that begins with a byte that is not whitespace.
abbrev WordRead : TokenStream → List ℕ → Option Token × TokenStream → Type 0
WordRead stream rest (none, behind) = (behind.eof ≡ stream.eof) × (behind.rest ≡ [])
WordRead stream rest (some token, behind) =
    (behind.eof ≡ stream.eof) × (length behind.rest ≤ length rest)

string_token-WordRead :
    (stream : TokenStream) (rest : List ℕ) (o : Option Read)
    → left_of o ≤ length rest
    → WordRead stream rest (string_token stream o)
unfolding string_token
string_token-WordRead stream rest none few = (refl, refl)
string_token-WordRead stream rest (some read) few = (refl, few)

read_string-WordRead :
    (stream : TokenStream) (rest : List ℕ) → WordRead stream rest (read_string stream rest)
unfolding read_string
read_string-WordRead stream rest =
    string_token-WordRead stream rest (string_loop [] (stream.column + 1) rest)
      (string_loop_shorter [] (stream.column + 1) rest)

read_word-WordRead :
    (stream : TokenStream) (c : ℕ) (rest : List ℕ)
    → stream.rest ≡ c ∷ rest
    → isspace c ≡ false
    → WordRead stream rest (read_word stream)
unfolding read_word read_plain word_loop
read_word-WordRead stream c rest at byte = elim (Bool-cases (c == 34)) [
  | inl quote ↦ rw (at, quote) (read_string-WordRead stream rest)
  | inr plain ↦
      rw (at, plain, byte)
        (let word = word_loop (c ∷ []) (stream.column + 1) rest in
          let behind = record stream { rest = word.1.0; column = word.1.1 } in
          let kept = classify_shorter (token_at stream word.0) behind (special_type word.0) in
          (kept.0, omega (arith, kept.1, word_loop_shorter (c ∷ []) (stream.column + 1) rest)))
]

-- A result false leaves nothing of the file. A token is none of the comments, and takes at least a
-- byte.
abbrev pub Advances : TokenStream → Option Token × TokenStream → Type 0
Advances stream (none, behind) = behind.rest ≡ []
Advances stream (some token, behind) =
    (is_comment token.type ≡ false)
    × (behind.eof ≡ false)
    × (length behind.rest < length stream.rest)

further-Advances :
    (stream behind : TokenStream) (r : Option Token × TokenStream)
    → length behind.rest < length stream.rest
    → Advances behind r
    → Advances stream r
further-Advances stream behind (none, last) less nil = nil
further-Advances stream behind (some token, last) less (other, e, fewer) =
    (other, e, omega (arith, less, fewer))

abbrev Ends : ℕ → TokenStream → Type 0
Ends fuel stream =
    (r : Option Token × TokenStream) × (next_loop fuel stream ≡ some r) × Advances stream r

-- After the word is read, a comment is skipped by the loop, and another token is the result.
after_word :
    (fuel : ℕ) (stream skipped : TokenStream) (rest : List ℕ) (word : Option Token × TokenStream)
    → ((s : TokenStream) → s.eof ≡ false → length s.rest < fuel → Ends fuel s)
    → skipped.eof ≡ false
    → length rest < length stream.rest
    → length stream.rest < suc fuel
    → WordRead skipped rest word
    → (r : Option Token × TokenStream) × (elim word.0 [
      | none ↦ some (none, word.1)
      | some token ↦
          if is_comment token.type then next_loop fuel word.1 else some (some token, word.1)
    ]
        ≡ some r)
      × Advances stream r
after_word fuel stream skipped rest (none, behind) loop going less few (e, nil) =
    ((none, behind), refl, nil)
after_word fuel stream skipped rest (some token, behind) loop going less few (e, shorter) =
    elim (Bool-cases (is_comment token.type)) [
      | inr other ↦
          rw other ((some token, behind), refl, (other, e ∙ going, omega (arith, shorter, less)))
      | inl comment ↦ rw comment (
          let (r, ends, advances) = loop behind (e ∙ going) (omega (arith, shorter, less, few)) in
          (r, ends, further-Advances stream behind r (omega (arith, shorter, less)) advances))
    ]

next_loop_total :
    (fuel : ℕ) (stream : TokenStream)
    → stream.eof ≡ false
    → length stream.rest < fuel
    → Ends fuel stream
unfolding next_loop skip_whitespace
next_loop_total zero stream going few = absurd (omega arith)
next_loop_total (suc fuel) stream going few =
    elim (skip_loop-Skipped stream.line stream.column stream.rest) [
      | inl (over, left) ↦ rw (going, over) ((none, skip_whitespace stream), refl, left)
      | inr (c, rest, more, at, byte, less) ↦
          rw (going, more)
            (after_word fuel stream (skip_whitespace stream) rest
              (read_word (skip_whitespace stream)) (λ s. next_loop_total fuel s) more less few
              (read_word-WordRead (skip_whitespace stream) c rest at byte))
    ]

-- `token_stream_next` on a stream that is not at its end returns. A result false leaves nothing of
-- the file; a token is no comment, and less of the file is left.
pub token_stream_next_total :
    (stream : TokenStream)
    → stream.eof ≡ false
    → (r : Option Token × TokenStream) × (token_stream_next stream ≡ some r) × Advances stream r
unfolding token_stream_next
token_stream_next_total stream going =
    next_loop_total (suc (length stream.rest)) stream going (omega arith)
