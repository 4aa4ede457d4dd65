-- ===== src/S3Fake/Paging/Walk.antt =====
-- s3fake.go: a client that asks for page after page, each behind the NextMarker of the one before.
use podplane.Base.Lists.{length-append}
use podplane.Base.{
  ℕ, zero, suc, ◌+◌, ◌<◌, ◌≡◌, refl, sym, ap, ◌∙◌, subst, String, List, [], ◌∷◌, ◌++◌, Option, none,
  some, if◌then◌else◌, All, All-map, length, inl, inr, arith, sort,
}
use podplane.Base.Strings.Ordering.{string_le_trans, string_le_total}
use podplane.S3Fake.Paging.{ListItem, key, by_key, Page, Paged, page_from, page_of}
use podplane.S3Fake.Paging.Order.{Increasing, DistinctKeys, sort-Increasing}
use podplane.S3Fake.Paging.Pages.{Behind, UpTo, Follows, CutFrom, page_from-CutFrom}

abbrev pub in_front :
    {Content : Type 0}
    → List (ListItem Content)
    → Option (List (ListItem Content))
    → Option (List (ListItem Content))
in_front items none = none
in_front items (some rest) = some (items ++ rest)

-- The items of all pages, with `pages` pages at most.
unfoldable pub walk :
    {Content : Type 0}
    → ℕ
    → Option String
    → ℕ
    → List (ListItem Content)
    → Option (List (ListItem Content))
walk max_keys marker zero listing = none
walk max_keys marker (suc pages) listing =
    let paged = page_of (record { marker = marker; max_keys = max_keys }) listing in
    let rest = walk max_keys (some paged.next_marker) pages listing in
    if paged.is_truncated then in_front paged.items rest else some paged.items

module _ {Content : Type 0} where
  -- The marker parts the listing into what was seen and what is left.
  abbrev Parts : Option String → List (ListItem Content) → List (ListItem Content) → Type 0
  Parts none before after = before ≡ []
  Parts (some marker) before after = All (UpTo marker) before × Follows marker after

  Parts-Behind :
      (marker : Option String) (before after : List (ListItem Content))
      → Parts marker before after
      → All (Behind marker) after
  Parts-Behind none before after h = all_behind after
    where
      all_behind : (xs : List (ListItem Content)) → All (Behind none) xs
      all_behind [] = tt
      all_behind (x ∷ xs) = (refl, all_behind xs)
  Parts-Behind (some marker) before after (up, follows) = All-map after (λ x h. rw h refl) follows

  skip :
      (marker : String) (max_keys count : ℕ) (next : String)
      (before after : List (ListItem Content))
      → All (UpTo marker) before
      → page_from
          (record { marker = some marker; max_keys = max_keys })
          count
          next
          (before ++ after)
        ≡ page_from (record { marker = some marker; max_keys = max_keys }) count next after
  unfolding page_from
  skip marker max_keys count next [] after h = refl
  skip marker max_keys count next (x ∷ before) after (h, hs) =
      rw h (skip marker max_keys count next before after hs)

  skip-Parts :
      (marker : Option String) (max_keys : ℕ) (before after : List (ListItem Content))
      → Parts marker before after
      → page_from (record { marker = marker; max_keys = max_keys }) 0 "" (before ++ after)
        ≡ page_from (record { marker = marker; max_keys = max_keys }) 0 "" after
  skip-Parts none max_keys before after h = rw h refl
  skip-Parts (some marker) max_keys before after (up, follows) =
      skip marker max_keys 0 "" before after up

  append_assoc : (xs ys zs : List (ListItem Content)) → (xs ++ ys) ++ zs ≡ xs ++ (ys ++ zs)
  append_assoc [] ys zs = refl
  append_assoc (x ∷ xs) ys zs = ap (λ l. x ∷ l) (append_assoc xs ys zs)

  All-append :
      (P : ListItem Content → Type 0) (xs ys : List (ListItem Content))
      → All P xs
      → All P ys
      → All P (xs ++ ys)
  All-append P [] ys h k = k
  All-append P (x ∷ xs) ys (h, hs) k = (h, All-append P xs ys hs k)

  Increasing-append : (xs ys : List (ListItem Content)) → Increasing (xs ++ ys) → Increasing ys
  Increasing-append [] ys h = h
  Increasing-append (x ∷ xs) ys (h, hs) = Increasing-append xs ys hs

  -- The marker behind a full page is at or behind the one before it.
  UpTo-next :
      (marker : Option String) (next : String) (before items rest : List (ListItem Content))
      → 0 < length items
      → Parts marker before (items ++ rest)
      → All (UpTo next) items
      → All (UpTo next) before
  UpTo-next none next before items rest some_items h up = rw h tt
  UpTo-next (some marker) next before [] rest some_items h up = absurd (omega arith)
  UpTo-next (some marker) next before (y ∷ items) rest some_items (up, (follows, _)) (le, _) =
      All-map before
        (λ x h.
          string_le_trans (key x) marker next h
            (string_le_trans marker (key y) next (string_le_total (key y) marker follows) le))
        up

  append_nil : (xs : List (ListItem Content)) → xs ++ [] ≡ xs
  append_nil [] = refl
  append_nil (x ∷ xs) = ap (λ l. x ∷ l) (append_nil xs)

  fewer :
      (after items rest : List (ListItem Content)) (pages : ℕ)
      → after ≡ items ++ rest
      → 0 < length items
      → length after < suc pages
      → length rest < pages
  fewer after items rest pages splits some_items enough =
      let sum : length after ≡ length items + length rest =
        ap length splits ∙ length-append items rest in
      omega arith

  walk-after :
      (marker : Option String) (max_keys pages : ℕ) (listing before after : List (ListItem Content))
      → 0 < max_keys
      → sort by_key listing ≡ before ++ after
      → Increasing after
      → Parts marker before after
      → length after < pages
      → walk max_keys marker pages listing ≡ some after
  unfolding walk page_of
  walk-after marker max_keys zero listing before after some_keys sorted inc parts enough =
      absurd (omega arith)
  walk-after marker max_keys (suc pages) listing before after some_keys sorted inc parts enough =
      let page : Page = record { marker = marker; max_keys = max_keys } in
      let paged : Paged Content = page_from page 0 "" after in
      let cut : CutFrom max_keys 0 "" after paged =
        page_from-CutFrom page 0 "" after some_keys (omega arith) inc
          (Parts-Behind marker before after parts) (λ started. absurd (omega arith)) in
      let here : page_of page listing ≡ paged =
        ap (page_from page 0 "") sorted ∙ skip-Parts marker max_keys before after parts in
      rw here (elim cut.ends [
        | inl (complete, nothing) ↦ rw complete (
            ap some
              (sym (cut.splits ∙ ap (λ ys. paged.items ++ ys) nothing ∙ append_nil paged.items)))
        | inr (truncated, up, follows, full) ↦
            (let some_items : 0 < length paged.items = omega arith in
              let left : Parts marker before (paged.items ++ cut.rest) =
                subst (Parts marker before) cut.splits parts in
              let next : walk max_keys (some paged.next_marker) pages listing ≡ some cut.rest =
                walk-after (some paged.next_marker) max_keys pages listing (before ++ paged.items)
                  cut.rest some_keys
                  (sorted
                    ∙ ap (λ ys. before ++ ys) cut.splits
                    ∙ sym (append_assoc before paged.items cut.rest))
                  (Increasing-append paged.items cut.rest (subst Increasing cut.splits inc))
                  (
                    All-append (UpTo paged.next_marker) before paged.items
                        (UpTo-next marker paged.next_marker before paged.items cut.rest some_items
                          left up)
                        up,
                    follows,
                  )
                  (fewer after paged.items cut.rest pages cut.splits some_items enough) in
              rw truncated (ap (in_front paged.items) next ∙ ap some (sym cut.splits)))
      ])

  -- If no two items of a listing have one key and a page holds at least one item, then a
  -- client that asks for page after page, each with the NextMarker of the one before as its
  -- marker, until a page is not truncated, gets all items in the order of their keys, each
  -- once, and needs at most one page more than there are items.
  pub walk-sort :
      (max_keys : ℕ) (listing : List (ListItem Content))
      → 0 < max_keys
      → DistinctKeys listing
      → walk max_keys none (suc (length (sort by_key listing))) listing ≡ some (sort by_key listing)
  walk-sort max_keys listing some_keys distinct =
      walk-after none max_keys _ listing [] (sort by_key listing) some_keys refl
        (sort-Increasing listing distinct) refl (omega arith)
