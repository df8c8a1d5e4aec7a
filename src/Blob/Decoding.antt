-- ===== src/Blob/Decoding.antt =====
-- src/cells.c: a blob is read back by one `decode_tag_ex` after the other.
use march.Prelude.{ℕ, zero, suc, ◌≡◌, refl, Option, none, some, List, [], ◌∷◌, map, length, ◌>>=◌}
use march.Blob.{Tag, decode_tag_ex}
use march.Blob.Codec.{Item, IsEncodable, tag_of, blob_of, decode-item_bytes}
use march.Dictionary.Best.{All}

-- The tags that so many calls of `decode_tag_ex` read, each from where the last one stopped, if
-- nothing is left then.
abbrev pub decode_tags : ℕ → List ℕ → Option (List Tag)
decode_tags zero [] = some []
decode_tags zero (byte ∷ bytes) = none
decode_tags (suc count) bytes =
    decode_tag_ex bytes >>= λ r. decode_tags count r.1 >>= λ tags. some (r.0 ∷ tags)

pub decode_tags-blob_of :
    (items : List Item)
    → All IsEncodable items
    → decode_tags (length items) (blob_of items) ≡ some (map tag_of items)
decode_tags-blob_of [] ok = refl
decode_tags-blob_of (item ∷ items) (first, ok) =
    rw (decode-item_bytes item (blob_of items) first, decode_tags-blob_of items ok)
