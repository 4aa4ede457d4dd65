-- ===== src/S3Fake/Paging/Order.antt =====
-- s3fake.go: the order of keys, which sort.Slice brings the items of a listing into.
use podplane.Base.{
  true, false, ◌≡◌, ◌≢◌, List, [], ◌∷◌, All, All-map, All-insert_sorted, All-sort, sort,
  insert_sorted, inl, inr, Bool-cases, arith,
}
use podplane.Base.Strings.Ordering.{string_le_trans, string_le_antisym}
use podplane.S3Fake.Paging.{ListItem, key, by_key}

module _ {Content : Type 0} where
  -- The key of the first is less than that of the second.
  abbrev pub Below : ListItem Content → ListItem Content → Type 0
  Below a b = by_key b a ≡ false

  abbrev pub Increasing : List (ListItem Content) → Type 0
  Increasing [] = Unit
  Increasing (x ∷ xs) = All (Below x) xs × Increasing xs

  abbrev pub DistinctKeys : List (ListItem Content) → Type 0
  DistinctKeys [] = Unit
  DistinctKeys (x ∷ xs) = All (λ y. key x ≢ key y) xs × DistinctKeys xs

  le-Below : (x y : ListItem Content) → by_key x y ≡ true → key x ≢ key y → Below x y
  le-Below x y le apart = elim (Bool-cases (by_key y x)) [
    | inl ge ↦ absurd (apart (string_le_antisym (key x) (key y) le ge))
    | inr lt ↦ lt
  ]

  Below-trans : (x y z : ListItem Content) → by_key x y ≡ true → Below y z → Below x z
  Below-trans x y z le below = elim (Bool-cases (by_key z x)) [
    | inl ge ↦ absurd (ground (arith, string_le_trans (key z) (key x) (key y) ge le))
    | inr lt ↦ lt
  ]

  insert-Increasing :
      (x : ListItem Content) (xs : List (ListItem Content))
      → All (λ y. key x ≢ key y) xs
      → Increasing xs
      → Increasing (insert_sorted by_key x xs)
  unfolding insert_sorted
  insert-Increasing x [] apart inc = (tt, tt)
  insert-Increasing x (y ∷ ys) (apart, aparts) (below, inc) = elim (Bool-cases (by_key x y)) [
    | inl le ↦
        rw le ((le-Below x y le apart, All-map ys (λ z. Below-trans x y z le) below), (below, inc))
    | inr gt ↦
        rw gt (
          (All-insert_sorted (Below y) by_key x ys).1 (gt, below),
          insert-Increasing x ys aparts inc,
        )
  ]

  pub sort-Increasing :
      (xs : List (ListItem Content)) → DistinctKeys xs → Increasing (sort by_key xs)
  unfolding sort
  sort-Increasing [] h = tt
  sort-Increasing (x ∷ xs) (apart, aparts) =
      insert-Increasing x (sort by_key xs) ((All-sort (λ y. key x ≢ key y) by_key xs).1 apart)
        (sort-Increasing xs aparts)
