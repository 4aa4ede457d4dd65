-- ===== src/S3Fake/Multipart/Tests.antt =====
-- s3fake.go: an upload of two bytes in one part, with a digest that is the part itself.
use podplane.Base.{
  true, false, ◌≡◌, ◌≢◌, refl, ap, String, List, [], ◌∷◌, none, ok, err, errorf, length, ◌||◌,
}
use podplane.Base.Assoc.{lookup, insert, without}
use podplane.Base.Strings.{trim_left, trim_right, every, contains_any, is_slash, decimal}
use podplane.Base.Exec.{◌>>=◌}
use podplane.S3Fake.Multipart.Files.{
  Bytes, Storage, Library, Steps, CompletedPart, read_file, multipart_upload, multipart_part_name,
  check_order, find_parts, matched, valid_multipart_upload_id, alphabet,
}
use podplane.S3Fake.Multipart.Operations.{
  take, or_clean_up, upload_part, put_object, complete_multipart_upload,
}
use podplane.S3Fake.Multipart.Completing.{
  Completed, complete_multipart_upload-err, complete_multipart_upload-ok,
}
use podplane.S3Fake.Multipart.Uploading.{matched-upload_part}
use podplane.S3Fake.Multipart.Ids.{is_dot, valid-contains_any}

abbrev library : Library (List Bytes)
library = record {
  unmarshal = λ text. ok (record { bucket = "b"; object = "o"; metadata = []; initiated = 0 });
  md5 = λ part. part;
  hex = λ digest. "x";
  put_object = λ bucket object metadata body size objects. (ok "v1", body ∷ objects);
  max_part_number = 10000;
  no_such_upload = errorf "NoSuchUpload" [];
  invalid_part = errorf "InvalidPart" [];
  invalid_part_order = errorf "InvalidPartOrder" [];
  incomplete_body = errorf "IncompleteBody" [];
}

abbrev calm : Steps
calm = record {
  read = λ name. none;
  create_temp = none;
  temporary = ".part-1";
  copy = none;
  close = none;
  rename_part = none;
  removes_temp = true;
  rename_dir = none;
  remains = none;
}

abbrev started : Storage (List Bytes)
started = record { dirs = ("ABC2", ("upload.json", []) ∷ []) ∷ []; backend = [] }

abbrev uploaded : Storage (List Bytes)
uploaded = record {
  dirs = ("ABC2", ("upload.json", []) ∷ ("00001.part", 7 ∷ 8 ∷ []) ∷ []) ∷ [];
  backend = [];
}

abbrev parts : List CompletedPart
parts = record { number = 1; etag = "x" } ∷ []

stored_part :
    upload_part library calm "b" "o" "ABC2" 1 2 (7 ∷ 8 ∷ []) started ≡ (ok "\"x\"", uploaded)
unfolding upload_part multipart_upload read_file take or_clean_up multipart_part_name
    valid_multipart_upload_id decimal ◌>>=◌ lookup insert without trim_left trim_right
stored_part = refl

completed :
    complete_multipart_upload library calm "b" "o" "ABC2" parts uploaded
    ≡ (ok ("v1", "\"x-1\""), record { dirs = []; backend = (7 ∷ 8 ∷ []) ∷ [] })
unfolding complete_multipart_upload put_object check_order find_parts multipart_upload read_file
    multipart_part_name valid_multipart_upload_id decimal ◌>>=◌ lookup insert without trim_left
    trim_right
completed = refl

matched-upload_part_example :
    (matched library calm
        (record { number = 1; etag = "\"x\"" })
        (read_file library calm
          (upload_part library calm "b" "o" "ABC2" 1 2 (7 ∷ 8 ∷ []) started).1
          "ABC2"
          (multipart_part_name 1))
      ≡ ok (take 3 (7 ∷ 8 ∷ [])))
    × (length (take 3 (7 ∷ 8 ∷ [])) ≡ 2)
matched-upload_part_example =
    matched-upload_part library calm calm "b" "o" "ABC2" 1 2 (7 ∷ 8 ∷ []) started "\"x\""
      (ap (λ r. r.0) stored_part) refl

complete_multipart_upload-ok_example :
    Completed library calm "b" "o" "ABC2" parts uploaded
      (complete_multipart_upload library calm "b" "o" "ABC2" parts uploaded).1
      "v1"
      "\"x-1\""
complete_multipart_upload-ok_example =
    complete_multipart_upload-ok library calm "b" "o" "ABC2" parts uploaded "v1" "\"x-1\""
      (ap (λ r. r.0) completed)

abbrev wrong : List CompletedPart
wrong = record { number = 0; etag = "x" } ∷ []

refused :
    (complete_multipart_upload library calm "b" "o" "ABC2" wrong uploaded).0
    ≡ err library.invalid_part_order
unfolding complete_multipart_upload put_object check_order multipart_upload read_file
    valid_multipart_upload_id ◌>>=◌ lookup trim_left trim_right
refused = refl

complete_multipart_upload-err_example :
    (complete_multipart_upload library calm "b" "o" "ABC2" wrong uploaded).1.dirs ≡ uploaded.dirs
complete_multipart_upload-err_example =
    complete_multipart_upload-err library calm "b" "o" "ABC2" wrong uploaded
      library.invalid_part_order refused

valid : valid_multipart_upload_id "ABC2" ≡ true
unfolding valid_multipart_upload_id trim_left trim_right
valid = refl

valid-contains_any_example :
    (◌≢◌ {A = String} "ABC2" "")
    × (every alphabet "ABC2" ≡ true)
    × (contains_any (λ c. is_slash c || is_dot c) "ABC2" ≡ false)
valid-contains_any_example = valid-contains_any "ABC2" valid
