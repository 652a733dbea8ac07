-- ===== src/Gorm/Rows.antt =====
-- Counting in the rows that an update or a deletion leaves.
use go_user_and_service_mgmt.Prelude.{
  ◌+◌, Bool, true, false, not, List, [], ◌∷◌, ◌≡◌, refl, ◌≤◌, arith, count_if, filter,
  count_if-filter, count_if-le, if◌then◌else◌,
}
use go_user_and_service_mgmt.Gorm.Laws.{update_where}

module _ {ℓ} {R : Type ℓ} where
  -- A test that the change does not move counts as before.
  pub count_if-update_where :
      (q p : R → Bool) (f : R → R) (rows : List R)
      → ((r : R) → p r ≡ true → q (f r) ≡ q r)
      → count_if q (update_where p f rows) ≡ count_if q rows
  count_if-update_where q p f [] h = refl
  count_if-update_where q p f (r ∷ rows) h = ground (arith, h r, count_if-update_where q p f rows h)

  pub count_if-filter-le :
      (q p : R → Bool) (rows : List R) → count_if q (filter p rows) ≤ count_if q rows
  count_if-filter-le q p rows =
      rw (count_if-filter q p rows)
        (count_if-le (λ r. if p r then q r else false) q rows (λ r. ground arith))

  -- A deletion that spares every row that passes the test.
  pub count_if-filter_of_implies :
      (q p : R → Bool) (rows : List R)
      → ((r : R) → q r ≡ true → p r ≡ true)
      → count_if q (filter p rows) ≡ count_if q rows
  count_if-filter_of_implies q p [] h = refl
  count_if-filter_of_implies q p (r ∷ rows) h =
      ground (arith, h r, count_if-filter_of_implies q p rows h)

  -- What is deleted and what is left add up.
  pub count_if-filter-not :
      (q p : R → Bool) (rows : List R)
      → ((r : R) → p r ≡ true → q r ≡ true)
      → count_if q (filter (λ r. not (p r)) rows) + count_if p rows ≡ count_if q rows
  count_if-filter-not q p [] h = omega arith
  count_if-filter-not q p (r ∷ rows) h = ground (arith, h r, count_if-filter-not q p rows h)

  -- No row passes a test that each remaining row passes only if it passed another one before.
  pub none_left :
      (q p q' : R → Bool) (rows : List R)
      → ((r : R) → p r ≡ true → q r ≡ true → q' r ≡ true)
      → count_if q' rows ≡ 0
      → count_if q (filter p rows) ≡ 0
  none_left q p q' [] h none = refl
  none_left q p q' (r ∷ rows) h none = ground (arith, h r, none_left q p q' rows h)

  -- So for an update.
  pub none_after :
      (q p q' : R → Bool) (f : R → R) (rows : List R)
      → ((r : R) → p r ≡ true → q (f r) ≡ true → q' r ≡ true)
      → ((r : R) → p r ≡ false → q r ≡ true → q' r ≡ true)
      → count_if q' rows ≡ 0
      → count_if q (update_where p f rows) ≡ 0
  none_after q p q' f [] h k none = refl
  none_after q p q' f (r ∷ rows) h k none = ground (arith, h r, k r, none_after q p q' f rows h k)
