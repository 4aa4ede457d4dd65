-- ===== src/S3Fake/Multipart/Completing.antt =====
-- s3fake.go: CompleteMultipartUpload, when it succeeds and when it fails.
use podplane.Base.{
  ℕ, ◌<◌, Bool, true, false, ◌≡◌, refl, sym, ap, ◌∙◌, subst, arith, String, List, [], ◌∷◌, ◌<>◌,
  ◌=ˢ◌, if◌then◌else◌, Result, ok, err, Error, length, bind-ok as chain-ok, ok-injective,
}
use podplane.Base.Strings.{trim, decimal}
use podplane.Base.Exec.{Exec, gets}
use podplane.Base.Exec.Keeps.{Keeps, Keeps-gets, Keeps-lift, bind-ok, lift-ok, modify-pure}
use podplane.Base.Exec.Fails.{FailKeeps, FailKeeps-bind, FailKeeps-modify}
use podplane.S3Fake.Multipart.Files.{
  Bytes, Upload, Storage, Library, Steps, Found, missing, failed, contents, CompletedPart,
  read_file, multipart_upload, multipart_part_name, is_quote, quote, etag_of, check_order, matched,
  find_parts, concat, total_size, digests,
}
use mathlib.Core.List.{map}
use podplane.S3Fake.Multipart.Assembling.{
  joined, digests-joined, same_names, put_object-joined, put_object-dirs,
}
use podplane.S3Fake.Multipart.Dropping.{Dropped, drop_upload-Dropped}
use podplane.S3Fake.Multipart.Operations.{put_object, drop_upload, complete_multipart_upload}

-- The numbers rise from `last` on.
abbrev pub Ascending : ℕ → List CompletedPart → Type 0
Ascending last [] = Unit
Ascending last (part ∷ parts) = (last < part.number) × Ascending part.number parts

picked :
    (fits : Bool) (c : Bytes) (e : Error) {found : Bytes}
    → Path (Result Bytes) (if fits then ok c else err e) (ok found)
    → (fits ≡ true) × (c ≡ found)
picked true c e h = (refl, ok-injective h)
picked false c e h = absurd (ground arith)

module _ {Backend : Type 0} (lib : Library Backend) (o : Steps) where
  -- The file of a requested part, and its ETag but for the quotes.
  abbrev pub IsPart : Storage Backend → String → CompletedPart → Bytes → Type 0
  IsPart s id part found =
      (read_file lib o s id (multipart_part_name part.number) ≡ contents found)
      × ((trim is_quote (etag_of lib o found) =ˢ trim is_quote part.etag) ≡ true)

  abbrev pub AreParts : Storage Backend → String → List CompletedPart → List Bytes → Type 0
  AreParts s id [] [] = Unit
  AreParts s id (part ∷ parts) (found ∷ rest) = IsPart s id part found × AreParts s id parts rest
  AreParts s id [] (found ∷ rest) = ⊥
  AreParts s id (part ∷ parts) [] = ⊥

  check_order-Ascending :
      (last : ℕ) (parts : List CompletedPart)
      → check_order lib o last parts ≡ ok tt
      → Ascending last parts
  unfolding check_order
  check_order-Ascending last [] h = tt
  check_order-Ascending last (part ∷ parts) h =
      ground (arith, check_order-Ascending part.number parts)

  matched-ok :
      (part : CompletedPart) (f : Found) {found : Bytes}
      → matched lib o part f ≡ ok found
      → (f ≡ contents found)
        × ((trim is_quote (etag_of lib o found) =ˢ trim is_quote part.etag) ≡ true)
  matched-ok part missing h = absurd (ground arith)
  matched-ok part (failed e) h = absurd (ground arith)
  matched-ok part (contents c) h =
      let (fits, same) =
        picked (trim is_quote (etag_of lib o c) =ˢ trim is_quote part.etag) c lib.invalid_part h in
      subst
        (λ b.
          (contents c ≡ contents b)
          × ((trim is_quote (etag_of lib o b) =ˢ trim is_quote part.etag) ≡ true))
        same (refl, fits)

  find_parts-AreParts :
      (s : Storage Backend) (id : String) (parts : List CompletedPart) {found : List Bytes}
      → find_parts lib o s id parts ≡ ok found
      → AreParts s id parts found
  unfolding find_parts
  find_parts-AreParts s id [] {found} h = subst (AreParts s id []) (ok-injective h) tt
  find_parts-AreParts s id (part ∷ parts) {found} h =
      let (first, done, h₁) =
        chain-ok (matched lib o part (read_file lib o s id (multipart_part_name part.number))) _
          h in
      let (rest, more, h₂) = chain-ok (find_parts lib o s id parts) _ h₁ in
      subst (AreParts s id (part ∷ parts)) (ok-injective h₂)
        (matched-ok part _ done, find_parts-AreParts s id parts more)

  put_object-Keeps :
      (bucket object : String) (upload : Upload) (body : Bytes) (size : ℕ)
      → Keeps (λ s. s.dirs) (put_object lib o bucket object upload.metadata body size)
  unfolding put_object
  put_object-Keeps bucket object upload body size = record { at = λ s. refl }

  complete-FailKeeps :
      (bucket object id : String) (parts : List CompletedPart)
      → FailKeeps (λ s. s.dirs) (complete_multipart_upload lib o bucket object id parts)
  unfolding complete_multipart_upload
  complete-FailKeeps bucket object id parts = FailKeeps-bind _ _ (Keeps-gets _) (λ checked.
      FailKeeps-bind _ _ (Keeps-lift checked) (λ upload.
        FailKeeps-bind _ _ (Keeps-lift (check_order lib o 0 parts)) (λ _.
          FailKeeps-bind _ _ (Keeps-gets _) (λ looked.
            FailKeeps-bind _ _ (Keeps-lift looked) (λ found.
              FailKeeps-bind _ _
                (put_object-Keeps bucket object upload (concat lib o found)
                  (total_size lib o found))
                (λ version. FailKeeps-modify (drop_upload lib o id) _))))))

  -- If CompleteMultipartUpload fails, the directories of all uploads are as they were.
  pub complete_multipart_upload-err :
      (bucket object id : String) (parts : List CompletedPart) (s : Storage Backend) (e : Error)
      → (complete_multipart_upload lib o bucket object id parts s).0 ≡ err e
      → (complete_multipart_upload lib o bucket object id parts s).1.dirs ≡ s.dirs
  complete_multipart_upload-err bucket object id parts s e h =
      (complete-FailKeeps bucket object id parts).at s e h

  -- What a successful completion has done.
  pub record Completed (bucket object id : String) (parts : List CompletedPart)
      (s after : Storage Backend) (version etag : String) : Type 0 where
    pub upload : Upload
    pub found : List Bytes
    pub stored : Storage Backend
    pub belongs : multipart_upload lib o s bucket object id ≡ ok upload
    pub same_bucket : upload.bucket ≡ bucket
    pub same_object : upload.object ≡ object
    pub ascending : Ascending 0 parts
    pub are_parts : AreParts s id parts found
    pub put :
        lib.put_object bucket object upload.metadata
          (joined found)
          (length (joined found))
          s.backend
        ≡ (ok version, after.backend)
    pub same_dirs : stored.dirs ≡ s.dirs
    pub dropped : Dropped o id stored after
    pub tagged :
        etag
        ≡ quote (lib.hex (lib.md5 (joined (map lib.md5 found))) <> ("-" <> decimal (length parts)))

  -- If CompleteMultipartUpload succeeds, then the upload is one of this bucket and object, the
  -- numbers of the requested parts are positive and rise, each requested part has a file whose
  -- ETag is the requested one but for quotes at its ends, the contents of these files one
  -- behind the other, with the sum of their lengths and the upload's metadata, were stored by
  -- the backend, which returned the version, the directory of the upload is gone unless it
  -- could neither be renamed nor be removed, no other directory has changed but the one with
  -- its new name, the backend has not changed after that, and the ETag is the digest of the
  -- parts' digests with their number.
  pub complete_multipart_upload-ok :
      (bucket object id : String) (parts : List CompletedPart) (s : Storage Backend)
      (version etag : String)
      → (complete_multipart_upload lib o bucket object id parts s).0 ≡ ok (version, etag)
      → Completed bucket object id parts s
          (complete_multipart_upload lib o bucket object id parts s).1
          version
          etag
  unfolding complete_multipart_upload gets
  complete_multipart_upload-ok bucket object id parts s version etag h =
      let (checked, is_checked, h₁, e₁) =
        bind-ok (gets (λ s. multipart_upload lib o s bucket object id)) _ s h in
      let (upload, uploaded, h₂, e₂) = lift-ok checked _ s h₁ in
      let (_, ordered, h₃, e₃) = lift-ok (check_order lib o 0 parts) _ s h₂ in
      let (looked, is_looked, h₄, e₄) = bind-ok (gets (λ s. find_parts lib o s id parts)) _ s h₃ in
      let (found, all_found, h₅, e₅) = lift-ok looked _ s h₄ in
      let put : Exec (Storage Backend) String =
        put_object lib o bucket object upload.metadata (concat lib o found)
          (total_size lib o found) in
      let (stored_as, stored, h₆, e₆) = bind-ok put _ s h₅ in
      let same : Path (String × String)
          (
            stored_as,
            quote (lib.hex (lib.md5 (digests lib o found)) <> ("-" <> decimal (length parts))),
          )
          (version, etag) =
        ok-injective (
          sym (
            ap (λ (r : Result (String × String) × Storage Backend). r.0)
              (modify-pure (drop_upload lib o id) _ (put s).1))
          ∙ h₆) in
      let belongs = ok-injective is_checked ∙ uploaded in
      let named = same_names lib o bucket object id s belongs in
      let put_ok : (put s).0 ≡ ok version = stored ∙ ap (λ (t : String × String). ok t.0) same in
      let run = e₁ ∙ e₂ ∙ e₃ ∙ e₄ ∙ e₅ ∙ e₆ ∙ modify-pure (drop_upload lib o id) _ (put s).1 in
      let left : (put s).1.backend ≡ (drop_upload lib o id (put s).1).backend =
        sym (drop_upload-Dropped lib o id (put s).1 s bucket object belongs).backend in
      record {
        upload = upload;
        found = found;
        stored = (put s).1;
        belongs = belongs;
        same_bucket = named.0;
        same_object = named.1;
        ascending = check_order-Ascending 0 parts ordered;
        are_parts = find_parts-AreParts s id parts (ok-injective is_looked ∙ all_found);
        put =
            put_object-joined lib o bucket object upload.metadata found s put_ok
            ∙ ap (λ b. (ok version, b))
                (left
                  ∙ sym (ap (λ (r : Result (String × String) × Storage Backend). r.1.backend) run));
        same_dirs = put_object-dirs lib o bucket object upload.metadata found s;
        dropped =
            subst (Dropped o id (put s).1)
              (sym (ap (λ (r : Result (String × String) × Storage Backend). r.1) run))
              (drop_upload-Dropped lib o id (put s).1 s bucket object belongs);
        tagged =
            sym (ap (λ (t : String × String). t.1) same)
            ∙ ap (λ d. quote (lib.hex (lib.md5 d) <> ("-" <> decimal (length parts))))
                (digests-joined lib o found);
      }
