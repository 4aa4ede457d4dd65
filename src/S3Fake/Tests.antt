-- ===== src/S3Fake/Tests.antt =====
-- s3fake.go: a listing of three items, in pages of two.
use podplane.Base.{
  ℕ, ◌≤◌, ◌≡◌, ◌≢◌, refl, List, [], ◌∷◌, none, some, true, length, sort, insert_sorted, arith,
  String, ◌=ˢ◌, eq_iff, false,
}
use podplane.Base.Strings.{string_le}
use podplane.S3Fake.Paging.{ListItem, content, prefix, Page, page_from, page_of}
use podplane.S3Fake.Paging.Pages.{length-page_of}
use podplane.S3Fake.Paging.Walk.{walk, walk-sort}

abbrev items : List (ListItem ℕ)
items = content "b" 1 ∷ prefix "c/" ∷ content "a" 2 ∷ []

abbrev sorted_items : List (ListItem ℕ)
sorted_items = content "a" 2 ∷ content "b" 1 ∷ prefix "c/" ∷ []

abbrev first : Page
first = record { marker = none; max_keys = 2 }

first_page :
    page_of first items
    ≡ record { items = content "a" 2 ∷ content "b" 1 ∷ []; is_truncated = true; next_marker = "b" }
unfolding page_of page_from sort insert_sorted string_le
first_page = refl

apart : (a b : String) → (a =ˢ b) ≡ false → a ≢ b
apart a b h same = absurd (ground (arith, eq_iff a b))

walk-sort_example : walk 2 none 4 items ≡ some sorted_items
unfolding sort insert_sorted string_le
walk-sort_example =
    walk-sort 2 items (omega arith)
      ((apart "b" "c/" refl, (apart "b" "a" refl, tt)), ((apart "c/" "a" refl, tt), (tt, tt)))

length-page_of_example : length (page_of first items).items ≤ 2
length-page_of_example = length-page_of first items (omega arith)
