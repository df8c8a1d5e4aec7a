-- ===== src/Database.antt =====
-- src/database.h and src/database.c: the blobs and the signatures that the compiler stores under
-- their hashes and the loader reads. A table of SQLite is the list of its rows, in which INSERT OR
-- IGNORE adds a row if its key is new. `sha256` is the hash of OpenSSL, and `accepts` tells whether
-- SQLite carries out an insertion into the database as it is; a query that is prepared runs.
pub mod Store
mod Examples
use march.Prelude.{
  ℕ, Bool, true, false, Option, none, some, List, [], ◌∷◌, ◌++◌, if◌then◌else◌, bytes_eq,
}
use march.Blob.{value_bytes, blob_data}

pub record SigRow : Type 0 where
  pub sig_cid : List ℕ
  pub input_sig : List ℕ
  pub output_sig : List ℕ

pub record BlobRow : Type 0 where
  pub cid : List ℕ
  pub kind : ℕ
  pub sig_cid : Option (List ℕ)
  pub bytes : List ℕ

pub record Database : Type 0 where
  pub type_signatures : List SigRow
  pub blobs : List BlobRow

pub find_sig : List ℕ → List SigRow → Option SigRow
find_sig cid [] = none
find_sig cid (row ∷ rows) = if bytes_eq row.sig_cid cid then some row else find_sig cid rows

pub find_blob : List ℕ → List BlobRow → Option BlobRow
find_blob cid [] = none
find_blob cid (row ∷ rows) = if bytes_eq row.cid cid then some row else find_blob cid rows

pub insert_sig : SigRow → List SigRow → List SigRow
unfolding find_sig
insert_sig row rows = elim (find_sig row.sig_cid rows) [ some old ↦ rows | none ↦ rows ++ row ∷ [] ]

pub insert_blob : BlobRow → List BlobRow → List BlobRow
unfolding find_blob
insert_blob row rows = elim (find_blob row.cid rows) [ some old ↦ rows | none ↦ rows ++ row ∷ [] ]

-- "|" between the two parts of a signature.
abbrev pub sig_text : List ℕ → List ℕ → List ℕ
sig_text input output = input ++ 124 ∷ output

-- `SELECT ... FROM blobs WHERE cid = ?`: the kind and the data of the row.
pub db_load_blob_ex : Database → List ℕ → Option (ℕ × List ℕ)
unfolding find_blob
db_load_blob_ex db cid = elim (find_blob cid db.blobs) [
  | none ↦ none
  | some row ↦ some (row.kind, row.bytes)
]

-- What is not of this repository.
pub record Storage : Type 0 where
  pub sha256 : List ℕ → List ℕ
  pub accepts : Database → Bool

module _ (os : Storage) where
  -- The CID, or the null pointer where SQLite fails. An `input` that is NULL is the empty text.
  unfoldable pub db_store_type_sig : Database → List ℕ → List ℕ → Option (List ℕ) × Database
  unfolding insert_sig
  db_store_type_sig db input output =
      let cid = os.sha256 (sig_text input output) in
      if os.accepts db
      then (
        some cid,
        record db {
          type_signatures =
              insert_sig (record { sig_cid = cid; input_sig = input; output_sig = output })
                db.type_signatures;
        },
      )
      else (none, db)

  unfoldable pub db_store_blob :
      Database → ℕ → Option (List ℕ) → List ℕ → Option (List ℕ) × Database
  unfolding insert_blob
  db_store_blob db kind sig_cid content =
      let cid = os.sha256 content in
      if os.accepts db
      then (
        some cid,
        record db {
          blobs =
              insert_blob (record { cid = cid; kind = kind; sig_cid = sig_cid; bytes = content })
                db.blobs;
        },
      )
      else (none, db)

  -- A literal with a signature of one type.
  unfoldable pub db_store_literal : Database → ℕ → List ℕ → Option (List ℕ) × Database
  db_store_literal db value type_sig =
      let sig = db_store_type_sig db [] type_sig in
      db_store_blob sig.1 blob_data sig.0 (value_bytes 8 value)
