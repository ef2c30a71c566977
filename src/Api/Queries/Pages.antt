-- ===== src/Api/Queries/Pages.antt =====
-- Page by page, a client sees each row once.
use mad_devs_note_taker.Base.{
  ℕ, zero, suc, ◌+◌, ◌-◌, ◌*◌, ◌≤◌, ◌≡◌, refl, ap, ◌∙◌, arith, List, [], ◌∷◌, ◌++◌, length, take,
  drop,
}
use mad_devs_note_taker.Api.Queries.{page_of}

module _ {A : Type 0} where
  -- The first `count` pages, one after the other.
  abbrev pub pages : ℕ → ℕ → List A → List A
  pages zero size rows = []
  pages (suc count) size rows = pages count size rows ++ page_of (count + 1) size rows

  take-nil : (n : ℕ) → take {A = A} n [] ≡ []
  take-nil zero = refl
  take-nil (suc n) = refl

  take-add : (m n : ℕ) (xs : List A) → take m xs ++ take n (drop m xs) ≡ take (m + n) xs
  take-add zero n xs = let e : 0 + n ≡ n = omega arith in rw e refl
  take-add (suc m) n [] = rw (take-nil n, take-nil (suc m + n)) refl
  take-add (suc m) n (x ∷ xs) =
      let e : suc m + n ≡ suc (m + n) = omega arith in rw e (ap (λ ys. x ∷ ys) (take-add m n xs))

  take-all : (m : ℕ) (xs : List A) → length xs ≤ m → take m xs ≡ xs
  take-all zero [] h = refl
  take-all (suc m) [] h = refl
  take-all zero (x ∷ xs) h = absurd (omega (arith, h))
  take-all (suc m) (x ∷ xs) h = ap (λ ys. x ∷ ys) (take-all m xs (omega (arith, h)))

  pages-take : (count size : ℕ) (rows : List A) → pages count size rows ≡ take (count * size) rows
  unfolding page_of
  pages-take zero size rows = let e : 0 * size ≡ 0 = omega arith in rw e refl
  pages-take (suc count) size rows =
      let e : (count + 1 - 1) * size ≡ count * size = ap (λ n. n * size) (omega arith) in
      let f : count * size + size ≡ suc count * size = omega arith in
      rw (pages-take count size rows, e)
        (take-add (count * size) size rows ∙ ap (λ n. take n rows) f)

  -- The pages of a list, up to a number of them that has room for it, are the list: no row is left out,
  -- none is repeated, and the order is kept.
  pub pages-all :
      (count size : ℕ) (rows : List A) → length rows ≤ count * size → pages count size rows ≡ rows
  pages-all count size rows room = pages-take count size rows ∙ take-all (count * size) rows room
