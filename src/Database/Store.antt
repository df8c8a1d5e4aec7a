-- ===== src/Database/Store.antt =====
-- src/database.c: what is stored can be loaded under its hash, and the rows that are there stay.
use march.Prelude.{
  arith, ℕ, ◌≡◌, ◌≢◌, refl, ◌∙◌, sym, ap, true, false, Bool-cases, Option-cases, inl, inr, Option,
  none, some, List, [], ◌∷◌, ◌++◌, if◌then◌else◌, bytes_eq, bytes_eq→eq, bytes_eq_refl,
}
use march.Database.{
  BlobRow, Database, Storage, find_blob, insert_blob, db_load_blob_ex, db_store_blob,
}

find_append :
    (cid : List ℕ) (row : BlobRow) (rows : List BlobRow)
    → find_blob cid (rows ++ row ∷ []) ≡ (elim (find_blob cid rows) [
      | some old ↦ some old
      | none ↦ if bytes_eq row.cid cid then some row else none
    ])
unfolding find_blob
find_append cid row [] = refl
find_append cid row (old ∷ rows) = elim (Bool-cases (bytes_eq old.cid cid)) [
  | inl same ↦ rw same refl
  | inr other ↦ rw other (find_append cid row rows)
]

no_row : {row : BlobRow} → none ≢ some row
no_row e = ground arith

-- What a table answers once a row is inserted: an older row of the CID first, then the new one.
insert-find :
    (cid : List ℕ) (row : BlobRow) (rows : List BlobRow)
    → find_blob cid (insert_blob row rows) ≡ (elim (find_blob cid rows) [
      | some old ↦ some old
      | none ↦ if bytes_eq row.cid cid then some row else none
    ])
unfolding insert_blob
insert-find cid row rows = elim (Option-cases (find_blob row.cid rows)) [
  | inl absent ↦ rw (absent, insert_blob) (find_append cid row rows)
  | inr (old, present) ↦
      rw (present, insert_blob)
        (elim (Option-cases (find_blob cid rows)) [
          | inr (older, found) ↦ rw found refl
          | inl absent ↦ elim (Bool-cases (bytes_eq row.cid cid)) [
            | inr other ↦ rw (absent, other) refl
            | inl same ↦ absurd (
                no_row (
                  sym absent
                  ∙ ap (λ c. find_blob c rows) (sym (bytes_eq→eq row.cid cid same))
                  ∙ present))
          ]
        ])
]

-- The kind of the row that was there, or else the one that is stored.
abbrev pub kind_of : Option BlobRow → ℕ → ℕ
kind_of none kind = kind
kind_of (some row) kind = row.kind

module _ (os : Storage) (db : Database) (kind : ℕ) (sig_cid : Option (List ℕ)) (content : List ℕ)
    (accepted : os.accepts db ≡ true) where
  -- The row that a store inserts, unless its CID has one.
  abbrev new_row : BlobRow
  new_row = record { cid = os.sha256 content; kind = kind; sig_cid = sig_cid; bytes = content }

  stored :
      db_store_blob os db kind sig_cid content
      ≡ (some (os.sha256 content), record db { blobs = insert_blob new_row db.blobs })
  unfolding db_store_blob
  stored = rw accepted refl

  -- The kind and the bytes of a row.
  abbrev content_of : Option BlobRow → Option (ℕ × List ℕ)
  content_of none = none
  content_of (some row) = some (row.kind, row.bytes)

  load-find :
      (d : Database) (cid : List ℕ) → db_load_blob_ex d cid ≡ content_of (find_blob cid d.blobs)
  unfolding db_load_blob_ex
  load-find d cid = refl

  -- Where SQLite carries out the insertion, and a row that is there under the hash of the bytes
  -- holds these bytes, they can be loaded under the CID that is returned; their kind is that of the
  -- row that was there, or else the one that is stored. Every other CID leads where it did.
  pub db_load-store :
      ((row : BlobRow) → find_blob (os.sha256 content) db.blobs ≡ some row → row.bytes ≡ content)
      → ((db_store_blob os db kind sig_cid content).0 ≡ some (os.sha256 content))
        × (db_load_blob_ex (db_store_blob os db kind sig_cid content).1 (os.sha256 content)
            ≡ some (kind_of (find_blob (os.sha256 content) db.blobs) kind, content))
        × ((cid : List ℕ)
            → bytes_eq (os.sha256 content) cid ≡ false
            → db_load_blob_ex (db_store_blob os db kind sig_cid content).1 cid
              ≡ db_load_blob_ex db cid)
  db_load-store same_bytes = (returned, loaded, others)
    where
      key : List ℕ
      key = os.sha256 content

      returned : (db_store_blob os db kind sig_cid content).0 ≡ some (os.sha256 content)
      returned = rw stored refl

      loaded :
          db_load_blob_ex (db_store_blob os db kind sig_cid content).1 (os.sha256 content)
          ≡ some (kind_of (find_blob (os.sha256 content) db.blobs) kind, content)
      loaded = elim (Option-cases (find_blob (os.sha256 content) db.blobs)) [
        | inl absent ↦ rw (stored, load-find, insert-find, absent, bytes_eq_refl) refl
        | inr (row, present) ↦
            rw (stored, load-find, insert-find, present, same_bytes row present) refl
      ]

      others :
          (cid : List ℕ)
          → bytes_eq (os.sha256 content) cid ≡ false
          → db_load_blob_ex (db_store_blob os db kind sig_cid content).1 cid
            ≡ db_load_blob_ex db cid
      others cid other = elim (Option-cases (find_blob cid db.blobs)) [
        | inl absent ↦ rw (stored, load-find, load-find, insert-find, absent, other) refl
        | inr (row, present) ↦ rw (stored, load-find, load-find, insert-find, present) refl
      ]
