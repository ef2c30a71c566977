-- ===== src/Base/Tables.antt =====
-- Rows of a table: an update of the rows that a test selects, and a stable sort by numeric keys.
use mad_devs_note_taker.Base.{
  ◌≡◌, refl, ap, Bool, true, false, List, [], ◌∷◌, arith, if◌then◌else◌, length, All, suc,
  Bool-cases, inl, inr,
}

module _ {ℓ} {A : Type ℓ} where
  -- UPDATE ... WHERE
  abbrev pub update_where : (A → Bool) → (A → A) → List A → List A
  update_where p f [] = []
  update_where p f (x ∷ xs) = (if p x then f x else x) ∷ update_where p f xs

  -- ORDER BY a, b: insertion after the rows that come no later.
  abbrev pub insert_by : (A → A → Bool) → A → List A → List A
  insert_by le x [] = x ∷ []
  insert_by le x (y ∷ ys) = let rest = insert_by le x ys in if le x y then x ∷ y ∷ ys else y ∷ rest

  abbrev pub order_by : (A → A → Bool) → List A → List A
  order_by le [] = []
  order_by le (x ∷ xs) = insert_by le x (order_by le xs)

  pub length-update_where :
      (p : A → Bool) (f : A → A) (xs : List A) → length (update_where p f xs) ≡ length xs
  length-update_where p f [] = refl
  length-update_where p f (x ∷ xs) = ap suc (length-update_where p f xs)

  pub length-insert_by :
      (le : A → A → Bool) (x : A) (xs : List A) → length (insert_by le x xs) ≡ suc (length xs)
  length-insert_by le x [] = refl
  length-insert_by le x (y ∷ ys) = ground (arith, length-insert_by le x ys)

  pub length-order_by : (le : A → A → Bool) (xs : List A) → length (order_by le xs) ≡ length xs
  length-order_by le [] = refl
  length-order_by le (x ∷ xs) =
      ground (arith, length-insert_by le x (order_by le xs), length-order_by le xs)

module _ {ℓ} {A : Type ℓ} (P : A → Type 0) where
  pub All-insert_by :
      (le : A → A → Bool) (x : A) (xs : List A) → P x → All P xs → All P (insert_by le x xs)
  All-insert_by le x [] h k = (h, k)
  All-insert_by le x (y ∷ ys) h k =
      elim (le x y) as (λ b. All P (if b then x ∷ y ∷ ys else y ∷ insert_by le x ys)) [
        | true ↦ (h, k)
        | false ↦ (k.0, All-insert_by le x ys h k.1)
      ]

  pub All-order_by : (le : A → A → Bool) (xs : List A) → All P xs → All P (order_by le xs)
  All-order_by le [] h = h
  All-order_by le (x ∷ xs) h = All-insert_by le x (order_by le xs) h.0 (All-order_by le xs h.1)

  pub All-update_where :
      (p : A → Bool) (f : A → A)
      → ((x : A) → P x → P (f x))
      → (xs : List A) → All P xs
      → All P (update_where p f xs)
  All-update_where p f g [] h = tt
  All-update_where p f g (x ∷ xs) h = (
    elim (p x) as (λ b. P (if b then f x else x)) [ true ↦ g x h.0 | false ↦ h.0 ],
    All-update_where p f g xs h.1,
  )

-- An update settles what it does to the rows that it selects, and the others must have had.
pub All-update_by {ℓ} :
    {A : Type ℓ} (Q : A → Type 0) (p : A → Bool) (f : A → A)
    → ((x : A) → p x ≡ true → Q (f x))
    → ((x : A) → p x ≡ false → Q x)
    → (xs : List A) → All Q (update_where p f xs)
All-update_by Q p f g h [] = tt
All-update_by Q p f g h (x ∷ xs) = (
  elim (Bool-cases (p x)) [ inl t ↦ rw t (g x t) | inr u ↦ rw u (h x u) ],
  All-update_by Q p f g h xs,
)

pub All-update_if {ℓ} :
    {A : Type ℓ} (P : A → Type 0) (p : A → Bool) (f : A → A) (xs : List A)
    → All (λ x. p x ≡ true → P (f x)) xs
    → All P xs
    → All P (update_where p f xs)
All-update_if P p f [] h k = tt
All-update_if P p f (x ∷ xs) h k = (
  elim (Bool-cases (p x)) [ inl t ↦ rw t (h.0 t) | inr u ↦ rw u k.0 ],
  All-update_if P p f xs h.1 k.1,
)
