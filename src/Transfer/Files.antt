-- ===== src/Transfer/Files.antt =====
-- The file system as the receiving side uses it: files by the components of their paths, written at a
-- position.
use filedrop.Base.{
  ℕ, zero, suc, ◌+◌, ◌≡◌, refl, sym, ap, Option, List, [], ◌∷◌, ◌++◌, append-nil, arith, ◌==◌,
  list_eq, if◌then◌else◌, length, replicate, take, drop, ◌≤◌, take-append-drop, drop_all, ◌∙◌,
}
use filedrop.Base.Paths.{Component, component_eq}

abbrev pub FileKey : Type 0
FileKey = List Component

-- Contents by path; `none` where there is no file.
abbrev pub FileSystem : Type 0
FileSystem = FileKey → Option (List ℕ)

abbrev pub update_file : FileSystem → FileKey → Option (List ℕ) → FileSystem
update_file fs k v j = if j == k then v else fs j

-- Overwriting from a position on; the gap behind the end is filled with zeros.
unfoldable pub put : List ℕ → ℕ → List ℕ → List ℕ
put c zero [] = c
put [] zero (b ∷ bs) = b ∷ put [] zero bs
put (x ∷ c) zero (b ∷ bs) = b ∷ put c zero bs
put [] (suc pos) bs = 0 ∷ put [] pos bs
put (x ∷ c) (suc pos) bs = x ∷ put c pos bs

-- `write_all` at a position. Writing nothing does not extend the file.
unfoldable pub write_at : List ℕ → ℕ → List ℕ → List ℕ
unfolding put
write_at c pos [] = c
write_at c pos (b ∷ bs) = put c pos (b ∷ bs)

put-put :
    (c : List ℕ) (pos : ℕ) (as' bs : List ℕ)
    → put (put c pos as') (pos + length as') bs ≡ put c pos (as' ++ bs)
unfolding put
put-put [] zero [] bs = refl
put-put (x ∷ c) zero [] bs = refl
put-put [] zero (a ∷ as') bs =
    let next : zero + length (a ∷ as') ≡ suc (zero + length as') = omega arith in
    rw next (ap (◌∷◌ a) (put-put [] zero as' bs))
put-put (x ∷ c) zero (a ∷ as') bs =
    let next : zero + length (a ∷ as') ≡ suc (zero + length as') = omega arith in
    rw next (ap (◌∷◌ a) (put-put c zero as' bs))
put-put [] (suc pos) as' bs =
    let next : suc pos + length as' ≡ suc (pos + length as') = omega arith in
    rw next (ap (◌∷◌ 0) (put-put [] pos as' bs))
put-put (x ∷ c) (suc pos) as' bs =
    let next : suc pos + length as' ≡ suc (pos + length as') = omega arith in
    rw next (ap (◌∷◌ x) (put-put c pos as' bs))

-- Two writes in a row are one.
pub write_at-write_at :
    (c : List ℕ) (pos : ℕ) (as' bs : List ℕ)
    → write_at (write_at c pos as') (pos + length as') bs ≡ write_at c pos (as' ++ bs)
unfolding write_at
write_at-write_at c pos [] [] = refl
write_at-write_at c pos [] (b ∷ bs) = ap (λ p. put c p (b ∷ bs)) (omega arith)
write_at-write_at c pos (a ∷ as') [] = ap (λ x. put c pos (a ∷ x)) (sym (append-nil as'))
write_at-write_at c pos (a ∷ as') (b ∷ bs) = put-put c pos (a ∷ as') (b ∷ bs)

put-start : (bs : List ℕ) → put [] zero bs ≡ bs
unfolding put
put-start [] = refl
put-start (b ∷ bs) = ap (◌∷◌ b) (put-start bs)

put-end : (c : List ℕ) (bs : List ℕ) → put c (length c) bs ≡ c ++ bs
unfolding put
put-end [] bs = put-start bs
put-end (x ∷ c) bs = ap (◌∷◌ x) (put-end c bs)

put-gap : (pos : ℕ) (bs : List ℕ) → put [] pos bs ≡ replicate pos 0 ++ bs
unfolding put
put-gap zero bs = put-start bs
put-gap (suc pos) bs = ap (◌∷◌ 0) (put-gap pos bs)

-- Writing to an empty file from its start, and to any file from its end.
pub write_at-start : (bs : List ℕ) → write_at [] 0 bs ≡ bs
unfolding write_at
write_at-start [] = refl
write_at-start (b ∷ bs) = put-start (b ∷ bs)

pub write_at-end : (c bs : List ℕ) → write_at c (length c) bs ≡ c ++ bs
unfolding write_at
write_at-end c [] = sym (append-nil c)
write_at-end c (b ∷ bs) = put-end c (b ∷ bs)

-- Writing behind the end of an empty file leaves zeros in front.
pub write_at-gap :
    (pos b : ℕ) (bs : List ℕ) → write_at [] pos (b ∷ bs) ≡ replicate pos 0 ++ (b ∷ bs)
unfolding write_at
write_at-gap pos b bs = put-gap pos (b ∷ bs)

put-zero : (c bs : List ℕ) → put c zero bs ≡ bs ++ drop (length bs) c
unfolding put
put-zero [] bs =
    put-start bs
    ∙ sym (ap (λ rest. bs ++ rest) (drop_all (length bs) [] (omega arith)) ∙ append-nil bs)
put-zero (x ∷ c) [] = refl
put-zero (x ∷ c) (b ∷ bs) = ap (◌∷◌ b) (put-zero c bs)

put-within :
    (c : List ℕ) (pos : ℕ) (bs : List ℕ)
    → pos ≤ length c
    → put c pos bs ≡ take pos c ++ (bs ++ drop (pos + length bs) c)
unfolding put
put-within c zero bs h = put-zero c bs ∙ ap (λ k. bs ++ drop k c) (omega arith)
put-within [] (suc pos) bs h = absurd (omega (arith, h))
put-within (x ∷ c) (suc pos) bs h =
    let next : suc pos + length bs ≡ suc (pos + length bs) = omega arith in
    rw next (ap (◌∷◌ x) (put-within c pos bs (omega (arith, h))))

-- Writing within a file keeps what is before the position and what is behind the bytes.
pub write_at-within :
    (c : List ℕ) (pos : ℕ) (bs : List ℕ)
    → pos ≤ length c
    → write_at c pos bs ≡ take pos c ++ (bs ++ drop (pos + length bs) c)
unfolding write_at
write_at-within c pos [] h =
    sym (ap (λ k. take pos c ++ drop k c) (omega arith) ∙ take-append-drop pos c)
write_at-within c pos (b ∷ bs) h = put-within c pos (b ∷ bs) h
