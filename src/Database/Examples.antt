-- ===== src/Database/Examples.antt =====
-- src/database.c at concrete inputs: a quotation is stored whose bytes are those of a word that is
-- there.
use march.Prelude.{
  ℕ, ◌≡◌, refl, sym, ap, true, false, Option, none, some, List, [], ◌∷◌, bytes_eq, replicate,
}
use march.Blob.{blob_word, blob_quotation}
use march.Database.{BlobRow, Database, Storage, find_blob, db_load_blob_ex, db_store_blob}
use march.Database.Store.{kind_of, db_load-store}

abbrev os : Storage
os = record { sha256 = λ bytes. replicate 32 7; accepts = λ db. true }

abbrev content : List ℕ
content = 1 ∷ 2 ∷ []

abbrev row : BlobRow
row = record { cid = replicate 32 7; kind = blob_word; sig_cid = none; bytes = content }

abbrev db : Database
db = record { type_signatures = []; blobs = row ∷ [] }

abbrev bytes_or : Option BlobRow → List ℕ
bytes_or none = []
bytes_or (some r) = r.bytes

same_bytes : (r : BlobRow) → find_blob (os.sha256 content) db.blobs ≡ some r → r.bytes ≡ content
unfolding find_blob bytes_eq
same_bytes r e = ap bytes_or (sym e)

db_load-store_example :
    ((db_store_blob os db blob_quotation none content).0 ≡ some (os.sha256 content))
    × (db_load_blob_ex (db_store_blob os db blob_quotation none content).1 (os.sha256 content)
        ≡ some (kind_of (find_blob (os.sha256 content) db.blobs) blob_quotation, content))
    × ((cid : List ℕ)
        → bytes_eq (os.sha256 content) cid ≡ false
        → db_load_blob_ex (db_store_blob os db blob_quotation none content).1 cid
          ≡ db_load_blob_ex db cid)
db_load-store_example = db_load-store os db blob_quotation none content refl same_bytes
