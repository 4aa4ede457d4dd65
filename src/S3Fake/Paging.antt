-- ===== src/S3Fake/Paging.antt =====
-- s3fake.go: ListBucket, and applyListBucketPage. gofakes3's list of objects is a parameter.
pub mod Order
pub mod Pages
pub mod Walk
use podplane.Base.{
  ℕ, ◌+◌, ltb, leb, ◌&&◌, ◌||◌, Bool, true, false, String, List, [], ◌∷◌, ◌++◌, Option, none, some,
  map, if◌then◌else◌, Result, ok, err, ◌>>=◌, sort,
}
use podplane.Base.Strings.{string_le}

-- An item of the listing: an object, with its key, or a common prefix.
pub data ListItem (Content : Type 0) : Type 0 where
  content : String → Content → ListItem Content
  prefix : String → ListItem Content

abbrev pub key : {Content : Type 0} → ListItem Content → String
key (content name value) = name
key (prefix name) = name

-- `none` is a page without a marker.
pub record Page : Type 0 where
  pub marker : Option String
  pub max_keys : ℕ

abbrev pub behind_marker : Option String → String → Bool
behind_marker none name = true
behind_marker (some marker) name = if string_le name marker then false else true

-- The items that the loop adds, and how it leaves IsTruncated and NextMarker.
pub record Paged (Content : Type 0) : Type 0 where
  pub items : List (ListItem Content)
  pub is_truncated : Bool
  pub next_marker : String

module _ {Content : Type 0} where
  abbrev pub added : ListItem Content → Paged Content → Paged Content
  added item paged = record paged { items = item ∷ paged.items }

  -- The loop, from a count and a NextMarker on.
  unfoldable pub page_from : Page → ℕ → String → List (ListItem Content) → Paged Content
  page_from page count next [] = record { items = []; is_truncated = false; next_marker = next }
  page_from page count next (item ∷ items) =
      let skipped = page_from page count next items in
      let taken = page_from page (count + 1) (key item) items in
      if behind_marker page.marker (key item)
      then (if ltb 0 page.max_keys && leb page.max_keys count
          then record { items = []; is_truncated = true; next_marker = next }
          else added item taken)
      else skipped

  abbrev pub by_key : ListItem Content → ListItem Content → Bool
  by_key a b = string_le (key a) (key b)

  -- The page of a listing whose items are not sorted yet.
  unfoldable pub page_of : Page → List (ListItem Content) → Paged Content
  page_of page items = page_from page 0 "" (sort by_key items)

-- gofakes3 and its backend. `Entries` is the part of its ObjectList that Add and AddPrefix build.
pub record Library (Content Entries : Type 0) : Type 0 where
  pub contents : Entries → List (Option Content)
  pub common_prefixes : Entries → List String
  pub content_key : Content → String
  pub new_entries : Entries
  pub add : Content → Entries → Entries
  pub add_prefix : String → Entries → Entries
  pub is_empty : Page → Bool

pub record ObjectList (Entries : Type 0) : Type 0 where
  pub entries : Entries
  pub is_truncated : Bool
  pub next_marker : String

module _ {Content Entries : Type 0} (lib : Library Content Entries) where
  abbrev pub content_items : List (Option Content) → List (ListItem Content)
  content_items [] = []
  content_items (none ∷ contents) = content_items contents
  content_items (some value ∷ contents) =
      content (lib.content_key value) value ∷ content_items contents

  abbrev pub listing : Entries → List (ListItem Content)
  listing entries = content_items (lib.contents entries) ++ map prefix (lib.common_prefixes entries)

  abbrev pub add_item : ListItem Content → Entries → Entries
  add_item (content name value) entries = lib.add value entries
  add_item (prefix name) entries = lib.add_prefix name entries

  abbrev pub add_all : List (ListItem Content) → Entries → Entries
  add_all [] entries = entries
  add_all (item ∷ items) entries = add_all items (add_item item entries)

  -- applyListBucketPage
  unfoldable pub apply_list_bucket_page :
      Option (ObjectList Entries) → Page → Option (ObjectList Entries)
  apply_list_bucket_page none page = none
  apply_list_bucket_page (some objects) page =
      let paged = page_of page (listing objects.entries) in
      if lib.is_empty page
      then some objects
      else some (record {
        entries = add_all paged.items lib.new_entries;
        is_truncated = paged.is_truncated;
        next_marker = paged.next_marker;
      })

  -- ListBucket, given what the backend lists without a page.
  unfoldable pub list_bucket :
      Result (Option (ObjectList Entries)) → Page → Result (Option (ObjectList Entries))
  list_bucket objects page = do found ← objects; ok (apply_list_bucket_page found page)
