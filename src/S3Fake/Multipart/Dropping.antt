-- ===== src/S3Fake/Multipart/Dropping.antt =====
-- s3fake.go: what CompleteMultipartUpload leaves of the directories.
use text.Mathlib.TextPositions.{eq_refl}
use Prim.Native.String.{String, ◌++◌ as ◌<>◌}
use Prim.Native.String.append
use podplane.Base.{
  true, false, ◌≡◌, ◌≢◌, refl, sym, ap, ◌∙◌, subst, arith, eq_iff, ◌=ˢ◌, ◌||◌, Option, none, some,
  ok, Error, ◌⊎◌, inl, inr, Bool-cases,
}
use podplane.Base.Assoc.{Assoc, lookup, without, lookup-insert, lookup-without}
use podplane.Base.Strings.{contains_any, is_slash}
use podplane.S3Fake.Multipart.Files.{
  Bytes, Upload, Storage, Library, Steps, valid_multipart_upload_id, multipart_upload,
}
use podplane.S3Fake.Multipart.Ids.{is_dot, valid-contains_any}
use podplane.S3Fake.Multipart.Operations.{left_over, moved, dropped, drop_upload}

-- The directory with this name is gone, unless it could neither be renamed nor be removed; only
-- this directory and the one with its new name can have changed, and the backend has not.
pub record Dropped {Backend : Type 0} (o : Steps) (id : String) (s after : Storage Backend)
    : Type 0 where
  pub gone :
      (lookup id after.dirs ≡ none)
      ⊎ ((e : Error) × (e' : Error) × (files : Assoc Bytes) × (o.rename_dir ≡ some e)
          × (o.remains ≡ some (e', files)))
  pub others :
      (name : String)
      → name ≢ id
      → name ≢ ".completed-" <> id
      → lookup name after.dirs ≡ lookup name s.dirs
  pub backend : after.backend ≡ s.backend

differs : (a b : String) → b ≢ a → (a =ˢ b) ≡ false
differs a b h = elim (Bool-cases (a =ˢ b)) [
  | inl same ↦ absurd (h (sym ((eq_iff a b).0 same)))
  | inr other ↦ other
]

-- An upload ID has no dot, and so is not its own name when completed.
not_completed :
    (id : String) → valid_multipart_upload_id id ≡ true → (".completed-" <> id =ˢ id) ≡ false
unfolding contains_any
not_completed id valid = differs (".completed-" <> id) id (λ same.
    let plain = (valid-contains_any id valid).2 in
    let dotted : contains_any (λ c. is_slash c || is_dot c) (".completed-" <> id) ≡ true =
      ap (contains_any (λ c. is_slash c || is_dot c)) (append.cons _ "completed-" id) in
    let plain' : contains_any (λ c. is_slash c || is_dot c) (".completed-" <> id) ≡ false =
      subst (λ t. contains_any (λ c. is_slash c || is_dot c) t ≡ false) same plain in
    absurd (ground arith))

lookup-left_over :
    {Backend : Type 0} (lib : Library Backend) (o' : Steps) (id name : String)
    (o : Option (Error × Assoc Bytes)) (dirs : Assoc (Assoc Bytes))
    → (id =ˢ name) ≡ false
    → lookup name (left_over lib o' id o dirs) ≡ lookup name dirs
lookup-left_over lib o' id name none dirs other = rw (lookup-without id name dirs, other) refl
lookup-left_over lib o' id name (some (e, files)) dirs other =
    rw (lookup-insert id name files dirs, other) refl

module _ {Backend : Type 0} (lib : Library Backend) (o : Steps) (id completed : String)
    (apart : (completed =ˢ id) ≡ false) where
  lookup-moved :
      (name : String) (found : Option (Assoc Bytes)) (dirs : Assoc (Assoc Bytes))
      → (id =ˢ name) ≡ false
      → (completed =ˢ name) ≡ false
      → lookup name (moved lib o id completed found dirs) ≡ lookup name dirs
  lookup-moved name none dirs this other = refl
  lookup-moved name (some files) dirs this other =
      rw
        (
          lookup-insert completed name files (without id dirs),
          other,
          lookup-without id name dirs,
          this,
        )
        refl

  lookup-moved_this :
      (found : Option (Assoc Bytes)) (dirs : Assoc (Assoc Bytes))
      → lookup id dirs ≡ found
      → lookup id (moved lib o id completed found dirs) ≡ none
  lookup-moved_this none dirs missing = missing
  lookup-moved_this (some files) dirs found =
      rw
        (
          lookup-insert completed id files (without id dirs),
          apart,
          lookup-without id id dirs,
          eq_refl id,
        )
        refl

module _ {Backend : Type 0} (lib : Library Backend) (o : Steps) (id : String) where
  dropped-Dropped :
      (renamed : Option Error) (s : Storage Backend)
      → o.rename_dir ≡ renamed
      → (".completed-" <> id =ˢ id) ≡ false
      → Dropped o id s (dropped lib o id renamed s)
  dropped-Dropped none s ended apart = record {
    gone = inl (
        lookup-left_over lib o (".completed-" <> id) id o.remains _ apart
        ∙ lookup-moved_this lib o id (".completed-" <> id) apart (lookup id s.dirs) s.dirs refl);
    others = λ name this other.
        lookup-left_over lib o (".completed-" <> id) name o.remains _ (differs _ _ other)
        ∙ lookup-moved lib o id (".completed-" <> id) apart name (lookup id s.dirs) s.dirs
            (differs _ _ this) (differs _ _ other);
    backend = refl;
  }
  dropped-Dropped (some e) s ended apart = record {
    gone = gone_unless o.remains refl;
    others = λ name this other. lookup-left_over lib o id name o.remains s.dirs (differs _ _ this);
    backend = refl;
  }
    where
      gone_unless :
          (remains : Option (Error × Assoc Bytes))
          → o.remains ≡ remains
          → (lookup id (left_over lib o id remains s.dirs) ≡ none)
            ⊎ ((e : Error) × (e' : Error) × (files : Assoc Bytes) × (o.rename_dir ≡ some e)
                × (o.remains ≡ some (e', files)))
      gone_unless none left = inl (rw (lookup-without id id s.dirs, eq_refl id) refl)
      gone_unless (some (e', files)) left = inr (e, e', files, ended, left)

  valid_of_upload :
      (s : Storage Backend) (bucket object : String) {upload : Upload}
      → multipart_upload lib o s bucket object id ≡ ok upload
      → valid_multipart_upload_id id ≡ true
  unfolding multipart_upload
  valid_of_upload s bucket object h = elim (Bool-cases (valid_multipart_upload_id id)) [
    | inl valid ↦ valid
    | inr other ↦ absurd (ground arith)
  ]

  pub drop_upload-Dropped :
      (s t : Storage Backend) (bucket object : String) {upload : Upload}
      → multipart_upload lib o t bucket object id ≡ ok upload
      → Dropped o id s (drop_upload lib o id s)
  drop_upload-Dropped s t bucket object h =
      dropped-Dropped o.rename_dir s refl (not_completed id (valid_of_upload t bucket object h))
