-- ===== src/S3Fake/Paging/Pages.antt =====
-- s3fake.go: one page of a sorted listing.
use podplane.Base.{
  ℕ, ◌+◌, ◌≤◌, ◌<◌, ltb, leb, ◌&&◌, true, false, ◌≡◌, refl, ap, String, List, [], ◌∷◌, ◌++◌, Option,
  All, All-map, sort, length, inl, inr, ◌⊎◌, Bool-cases, arith,
}
use podplane.Base.Strings.{string_le}
use podplane.Base.Strings.Ordering.{string_le_trans, string_le_total}
use podplane.S3Fake.Paging.{
  ListItem, key, by_key, Page, Paged, behind_marker, added, page_from, page_of,
}
use podplane.S3Fake.Paging.Order.{Below, Increasing}

string_le_refl : (s : String) → string_le s s ≡ true
string_le_refl s = elim (Bool-cases (string_le s s)) [ inl h ↦ h | inr h ↦ string_le_total s s h ]

module _ {Content : Type 0} where
  abbrev pub Behind : Option String → ListItem Content → Type 0
  Behind marker x = behind_marker marker (key x) ≡ true

  abbrev pub UpTo : String → ListItem Content → Type 0
  UpTo marker x = string_le (key x) marker ≡ true

  abbrev pub Follows : String → List (ListItem Content) → Type 0
  Follows marker = All (λ x. string_le (key x) marker ≡ false)

  -- The part of the loop that starts with `count` items on the page.
  pub record CutFrom (max count : ℕ) (next : String) (xs : List (ListItem Content))
      (paged : Paged Content) : Type 0 where
    pub rest : List (ListItem Content)
    pub splits : xs ≡ paged.items ++ rest
    pub later : 0 < count → string_le next paged.next_marker ≡ true
    pub ends :
        ((paged.is_truncated ≡ false) × (rest ≡ []))
        ⊎ ((paged.is_truncated ≡ true)
            × All (UpTo paged.next_marker) paged.items
            × Follows paged.next_marker rest
            × (length paged.items + count ≡ max))

  Below-Follows :
      (x : ListItem Content) (xs : List (ListItem Content)) → All (Below x) xs → Follows (key x) xs
  Below-Follows x xs h = All-map xs (λ y below. below) h

  added-CutFrom :
      (max count : ℕ) (next : String) (x : ListItem Content) (xs : List (ListItem Content))
      (paged : Paged Content)
      → (0 < count → string_le next (key x) ≡ true)
      → CutFrom max (count + 1) (key x) xs paged
      → CutFrom max count next (x ∷ xs) (added x paged)
  added-CutFrom max count next x xs paged le cut = record {
    rest = cut.rest;
    splits = ap (λ ys. x ∷ ys) cut.splits;
    later = λ started.
        string_le_trans next (key x) paged.next_marker (le started) (cut.later (omega arith));
    ends = elim cut.ends [
      | inl done ↦ inl done
      | inr (truncated, before, after, full) ↦
          inr (truncated, (cut.later (omega arith), before), after, omega arith)
    ];
  }

  pub page_from-CutFrom :
      (page : Page) (count : ℕ) (next : String) (xs : List (ListItem Content))
      → 0 < page.max_keys
      → count ≤ page.max_keys
      → Increasing xs
      → All (Behind page.marker) xs
      → (0 < count → Follows next xs)
      → CutFrom page.max_keys count next xs (page_from page count next xs)
  unfolding page_from
  page_from-CutFrom page count next [] some_keys bound inc behind follows = record {
    rest = [];
    splits = refl;
    later = λ started. string_le_refl next;
    ends = inl (refl, refl);
  }
  page_from-CutFrom page count next (x ∷ xs) some_keys bound (below, inc) (first, behind) follows =
      elim (Bool-cases (ltb 0 page.max_keys && leb page.max_keys count)) [
        | inl full ↦
            rw (first, full)
              record {
                rest = x ∷ xs;
                splits = refl;
                later = λ started. string_le_refl next;
                ends = inr (refl, tt, follows (ground arith), ground arith);
              }
        | inr left ↦
            rw (first, left)
              (added-CutFrom page.max_keys count next x xs _
                (λ started. string_le_total (key x) next (follows started).0)
                (page_from-CutFrom page (count + 1) (key x) xs some_keys (ground arith) inc behind
                  (λ started. Below-Follows x xs below)))
      ]

  page_from-bound :
      (page : Page) (count : ℕ) (next : String) (xs : List (ListItem Content))
      → 0 < page.max_keys
      → count ≤ page.max_keys
      → length (page_from page count next xs).items + count ≤ page.max_keys
  unfolding page_from
  page_from-bound page count next [] some_keys bound = omega arith
  page_from-bound page count next (x ∷ xs) some_keys bound =
      elim (Bool-cases (behind_marker page.marker (key x))) [
        | inl behind ↦ elim (Bool-cases (ltb 0 page.max_keys && leb page.max_keys count)) [
          | inl full ↦ rw (behind, full) (omega arith)
          | inr left ↦
              rw (behind, left)
                (let rest = page_from-bound page (count + 1) (key x) xs some_keys (ground arith) in
                  omega arith)
        ]
        | inr before ↦ rw before (page_from-bound page count next xs some_keys bound)
      ]

  -- A page has no more items than MaxKeys, if MaxKeys is not zero.
  pub length-page_of :
      (page : Page) (listing : List (ListItem Content))
      → 0 < page.max_keys
      → length (page_of page listing).items ≤ page.max_keys
  unfolding page_of
  length-page_of page listing some_keys =
      let bound = page_from-bound page 0 "" (sort by_key listing) some_keys (omega arith) in
      omega arith
