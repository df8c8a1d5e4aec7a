-- ===== src/Tokens.antt =====
-- src/tokens.h and src/tokens.c: the tokens of a source file. The file is the list of its bytes
-- that are still to be read, and `ungetc` leaves its byte there; no byte is 0. The number of a
-- token that is no number is 0 here, where C leaves it unset.
pub mod Next
pub mod Strings
mod Examples
use march.Prelude.{
  ℕ, zero, suc, ◌+◌, ◌-◌, ◌*◌, ◌%◌, ◌^◌, Bool, true, false, ◌&&◌, ◌||◌, not, Option, none, some,
  List, [], ◌∷◌, ◌++◌, ltb, leb, ◌==◌, if◌then◌else◌, ◌>>=◌, bytes_eq, length,
}

pub data TokenType : Type 0 where
  tok_eof tok_number tok_word tok_string tok_colon tok_semicolon : TokenType
  tok_lparen tok_rparen tok_lbracket tok_rbracket tok_dollar tok_comment : TokenType

pub record Token : Type 0 where
  pub type : TokenType
  pub text : List ℕ
  pub number : ℕ
  pub line : ℕ
  pub column : ℕ

pub record TokenStream : Type 0 where
  pub rest : List ℕ
  pub line : ℕ
  pub column : ℕ
  pub eof : Bool

unfoldable pub token_stream_create : List ℕ → TokenStream
token_stream_create file = record { rest = file; line = 1; column = 1; eof = false }

-- `isspace` of the C locale: a space, or one from tab to carriage return.
abbrev pub isspace : ℕ → Bool
isspace c = c == 32 || (leb 9 c && leb c 13)

pub skip_loop : ℕ → ℕ → List ℕ → TokenStream
skip_loop line column [] = record { rest = []; line = line; column = column; eof = true }
skip_loop line column (c ∷ rest) =
    if isspace c
    then (if c == 10 then skip_loop (line + 1) 1 rest else skip_loop line (column + 1) rest)
    else record { rest = c ∷ rest; line = line; column = column; eof = false }

-- Called where `eof` is false.
pub skip_whitespace : TokenStream → TokenStream
unfolding skip_loop
skip_whitespace stream = skip_loop stream.line stream.column stream.rest

-- `if (pos < limit) buffer[pos++] = c`
abbrev pub put : ℕ → List ℕ → ℕ → List ℕ
put limit buffer c = if ltb (length buffer) limit then buffer ++ c ∷ [] else buffer

-- What is read, the rest of the file, and the column after it.
abbrev pub Read : Type 0
Read = List ℕ × (List ℕ × ℕ)

-- The loop of `read_string` behind the opening quote. `none` is a string without an end.
pub string_loop : List ℕ → ℕ → List ℕ → Option Read
string_loop buffer column [] = none
string_loop buffer column (c ∷ []) = if c == 34 then some (buffer, ([], column + 1)) else none
string_loop buffer column (c ∷ next ∷ rest) =
    if c == 92
    then (if next == 34
        then string_loop (put 1023 buffer 34) (column + 2) rest
        else if next == 92
        then string_loop (put 1023 buffer 92) (column + 2) rest
        else string_loop (put 1023 (put 1023 buffer 92) next) (column + 2) rest)
    else if c == 34
    then (if isspace next
        then some (buffer, (next ∷ rest, column + 1))
        else string_loop (put 1023 buffer 34) (column + 1) (next ∷ rest))
    else string_loop (put 1023 buffer c) (column + 1) (next ∷ rest)

-- The loop of `read_word` up to whitespace or the end.
pub word_loop : List ℕ → ℕ → List ℕ → Read
word_loop buffer column [] = (buffer, ([], column))
word_loop buffer column (c ∷ rest) =
    if isspace c
    then (buffer, (c ∷ rest, column))
    else word_loop (put 255 buffer c) (column + 1) rest

-- The value of a digit in a base, as `strtoll` reads it.
abbrev pub digit_value : ℕ → ℕ
digit_value c =
    if leb 48 c && leb c 57
    then c - 48
    else if leb 97 c && leb c 122
    then c - 87
    else if leb 65 c && leb c 90
    then c - 55
    else 99

pub read_digits : ℕ → ℕ → List ℕ → Option ℕ
read_digits base value [] = some value
read_digits base value (c ∷ digits) =
    if ltb (digit_value c) base
    then read_digits base (value * base + digit_value c) digits
    else none

-- Base 0: a hexadecimal number behind 0x, an octal one behind 0, otherwise a decimal one; `none` if
-- the whole text is no number.
pub read_magnitude : List ℕ → Option ℕ
unfolding read_digits
read_magnitude [] = none
read_magnitude (c ∷ []) = read_digits 10 0 (c ∷ [])
read_magnitude (c ∷ d ∷ []) =
    if c == 48 then read_digits 8 0 (d ∷ []) else read_digits 10 0 (c ∷ d ∷ [])
read_magnitude (c ∷ d ∷ e ∷ digits) =
    if c == 48
    then (if d == 120 || d == 88
        then read_digits 16 0 (e ∷ digits)
        else read_digits 8 0 (d ∷ e ∷ digits))
    else read_digits 10 0 (c ∷ d ∷ e ∷ digits)

-- `strtoll` with the tests on `endptr` and `errno`: the bit pattern, in the range of `int64_t`.
pub read_number : List ℕ → Option ℕ
unfolding read_magnitude
read_number [] = some 0
read_number (c ∷ text) =
    if c == 45
    then (read_magnitude text >>= λ n.
        if leb n (2 ^ 63) then some ((2 ^ 64 - n) % 2 ^ 64) else none)
    else read_magnitude (if c == 43 then text else c ∷ text) >>= λ n.
        if ltb n (2 ^ 63) then some n else none

-- The type of a word that is read, before it is tried as a number.
pub special_type : List ℕ → Option TokenType
special_type text =
    if bytes_eq text (58 ∷ [])
    then some tok_colon
    else if bytes_eq text (59 ∷ [])
    then some tok_semicolon
    else if bytes_eq text (40 ∷ [])
    then some tok_lparen
    else if bytes_eq text (41 ∷ [])
    then some tok_rparen
    else if bytes_eq text (91 ∷ [])
    then some tok_lbracket
    else if bytes_eq text (93 ∷ [])
    then some tok_rbracket
    else if bytes_eq text (36 ∷ [])
    then some tok_dollar
    else if bytes_eq text (45 ∷ 45 ∷ [])
    then some tok_comment
    else none

-- The rest of the line of a comment is read: the rest of the file, the line and the column.
pub comment_loop : ℕ → ℕ → List ℕ → List ℕ × (ℕ × ℕ)
comment_loop line column [] = ([], (line, column))
comment_loop line column (c ∷ rest) =
    if c == 10 then (rest, (line + 1, 1)) else comment_loop line (column + 1) rest

pub number_token : Token → Option ℕ → Token
number_token token none = record token { type = tok_word }
number_token token (some n) = record token { type = tok_number; number = n }

-- A word that is read becomes a token. `token` has its text and place, `stream` stands behind it.
pub classify : Token → TokenStream → Option TokenType → Token × TokenStream
unfolding comment_loop number_token
classify token stream none = (number_token token (read_number token.text), stream)
classify token stream (some tok_comment) =
    let skipped = comment_loop stream.line stream.column stream.rest in
    (
      record token { type = tok_comment },
      record stream { rest = skipped.0; line = skipped.1.0; column = skipped.1.1 },
    )
classify token stream (some type) = (record token { type = type }, stream)

abbrev pub token_at : TokenStream → List ℕ → Token
token_at stream text = record {
  type = tok_word;
  text = text;
  number = 0;
  line = stream.line;
  column = stream.column;
}

-- `none` is the result false.
pub string_token : TokenStream → Option Read → Option Token × TokenStream
string_token stream none = (none, record stream { rest = [] })
string_token stream (some read) = (
  some (record (token_at stream read.0) { type = tok_string }),
  record stream { rest = read.1.0; column = read.1.1 },
)

pub read_string : TokenStream → List ℕ → Option Token × TokenStream
unfolding string_loop string_token
read_string stream rest = string_token stream (string_loop [] (stream.column + 1) rest)

pub read_plain : TokenStream → Token × TokenStream
unfolding word_loop classify
read_plain stream =
    let read = word_loop [] stream.column stream.rest in
    classify (token_at stream read.0) (record stream { rest = read.1.0; column = read.1.1 })
      (special_type read.0)

-- Called where the rest begins with a byte that is not whitespace.
pub read_word : TokenStream → Option Token × TokenStream
unfolding read_string read_plain
read_word stream = elim stream.rest [
  | [] ↦ (none, stream)
  | c ∷ rest ↦
      if c == 34
      then read_string stream rest
      else (some (read_plain stream).0, (read_plain stream).1)
]

abbrev pub is_comment : TokenType → Bool
is_comment tok_comment = true
is_comment _ = false

-- On fuel for the comments that are skipped. The inner `none` is the result false.
pub next_loop : ℕ → TokenStream → Option (Option Token × TokenStream)
next_loop zero stream = none
next_loop (suc fuel) stream =
    if stream.eof
    then some (none, stream)
    else (let skipped = skip_whitespace stream in
        if skipped.eof then some (none, skipped) else elim (read_word skipped).0 [
          | none ↦ some (none, (read_word skipped).1)
          | some token ↦
              if is_comment token.type
              then next_loop fuel (read_word skipped).1
              else some (some token, (read_word skipped).1)
        ])

pub token_stream_next : TokenStream → Option (Option Token × TokenStream)
unfolding next_loop
token_stream_next stream = next_loop (suc (length stream.rest)) stream

pub token_is : Token → List ℕ → Bool
token_is token text = bytes_eq token.text text
