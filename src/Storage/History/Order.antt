-- ===== src/Storage/History/Order.antt =====
-- The order in which the transfers are listed.
use filedrop.Base.{
  ℕ, ◌+◌, ◌≡◌, refl, ap, ◌∙◌, inl, inr, Bool, true, false, List, [], ◌∷◌, arith, if◌then◌else◌, All,
  Bool-cases,
}
use filedrop.Base.Dict.{values}
use filedrop.Base.Words.{ℤ, leb_ℤ}
use filedrop.Storage.History.{TransferRecord, HistoryStore, insert_sorted, sort_by_completed, list}

-- `b` was not completed after `a`.
abbrev IsNotLater : TransferRecord → TransferRecord → Type 0
IsNotLater a b = leb_ℤ b.completed_at a.completed_at ≡ true

-- The latest come first.
abbrev pub IsLatestFirst : List TransferRecord → Type 0
IsLatestFirst [] = Unit {0}
IsLatestFirst (r ∷ rs) = All (IsNotLater r) rs × IsLatestFirst rs

-- How many records pass a test.
abbrev pub count : (TransferRecord → Bool) → List TransferRecord → ℕ
count test [] = 0
count test (r ∷ rs) = (if test r then 1 else 0) + count test rs

leb_ℤ-trans : (a b c : ℤ) → leb_ℤ a b ≡ true → leb_ℤ b c ≡ true → leb_ℤ a c ≡ true
leb_ℤ-trans a b c h k = ground arith

leb_ℤ-total : (a b : ℤ) → leb_ℤ a b ≡ false → leb_ℤ b a ≡ true
leb_ℤ-total a b h = ground arith

All-later :
    (r x : TransferRecord) (xs : List TransferRecord)
    → IsNotLater r x
    → All (IsNotLater x) xs
    → All (IsNotLater r) xs
All-later r x [] h k = tt
All-later r x (y ∷ ys) h k =
    (leb_ℤ-trans y.completed_at x.completed_at r.completed_at k.0 h, All-later r x ys h k.1)

All-insert_sorted :
    (x r : TransferRecord) (xs : List TransferRecord)
    → IsNotLater x r
    → All (IsNotLater x) xs
    → All (IsNotLater x) (insert_sorted r xs)
unfolding insert_sorted
All-insert_sorted x r [] h k = (h, tt)
All-insert_sorted x r (y ∷ ys) h k = elim (Bool-cases (leb_ℤ y.completed_at r.completed_at)) [
  | inl e ↦ rw (e, insert_sorted) (h, k)
  | inr e ↦ rw (e, insert_sorted) (k.0, All-insert_sorted x r ys h k.1)
]

insert_sorted-IsLatestFirst :
    (r : TransferRecord) (xs : List TransferRecord)
    → IsLatestFirst xs
    → IsLatestFirst (insert_sorted r xs)
unfolding insert_sorted
insert_sorted-IsLatestFirst r [] h = (tt, tt)
insert_sorted-IsLatestFirst r (x ∷ xs) h = elim (Bool-cases (leb_ℤ x.completed_at r.completed_at)) [
  | inl e ↦ rw (e, insert_sorted) ((e, All-later r x xs e h.0), h)
  | inr e ↦
      let later = leb_ℤ-total x.completed_at r.completed_at e in
      rw (e, insert_sorted)
        (All-insert_sorted x r xs later h.0, insert_sorted-IsLatestFirst r xs h.1)
]

count-insert_sorted :
    (test : TransferRecord → Bool) (r : TransferRecord) (xs : List TransferRecord)
    → count test (insert_sorted r xs) ≡ count test (r ∷ xs)
unfolding insert_sorted
count-insert_sorted test r [] = refl
count-insert_sorted test r (x ∷ xs) = elim (Bool-cases (leb_ℤ x.completed_at r.completed_at)) [
  | inl e ↦ rw (e, insert_sorted) refl
  | inr e ↦ rw (e, insert_sorted) (omega (arith, count-insert_sorted test r xs))
]

sort-lem :
    (test : TransferRecord → Bool) (rs : List TransferRecord)
    → IsLatestFirst (sort_by_completed rs) × (count test (sort_by_completed rs) ≡ count test rs)
unfolding sort_by_completed
sort-lem test [] = (tt, refl)
sort-lem test (r ∷ rs) =
    let (ordered, same) = sort-lem test rs in
    (
      insert_sorted-IsLatestFirst r (sort_by_completed rs) ordered,
      count-insert_sorted test r (sort_by_completed rs)
          ∙ ap (λ n. (if test r then 1 else 0) + n) same,
    )

-- `list` gives the records of the store, the latest first: it is ordered by the time of completion, and
-- any test passes as many records of it as of the store.
pub list-IsLatestFirst :
    (test : TransferRecord → Bool) (s : HistoryStore)
    → IsLatestFirst (list s) × (count test (list s) ≡ count test (values s.records))
unfolding list
list-IsLatestFirst test s = sort-lem test (values s.records)
