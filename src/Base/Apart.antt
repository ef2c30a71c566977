-- ===== src/Base/Apart.antt =====
-- Lists whose elements are pairwise related, such as the rows of a table by their keys; members; and
-- the growth of a table from one state to a later one.
use mad_devs_note_taker.Base.{
  ◌≡◌, refl, subst, Bool, true, false, List, [], ◌∷◌, ◌++◌, inl, inr, if◌then◌else◌, All,
  All-append, All-select, All-imp, Some, select, take, All-take, ℕ, zero, suc, Bool-cases,
}
use mad_devs_note_taker.Base.Tables.{update_where, insert_by, order_by, All-insert_by, All-order_by}

module _ {ℓ} {A : Type ℓ} (R : A → A → Type 0) where
  abbrev pub Apart : List A → Type 0
  Apart [] = Unit
  Apart (x ∷ xs) = All (R x) xs × Apart xs

  pub Apart-append : (xs : List A) (y : A) → Apart xs → All (λ x. R x y) xs → Apart (xs ++ y ∷ [])
  Apart-append [] y h k = (tt, tt)
  Apart-append (x ∷ xs) y h k =
      (All-append (R x) xs (y ∷ []) h.0 (k.0, tt), Apart-append xs y h.1 k.1)

  pub Apart-select : (p : A → Bool) (xs : List A) → Apart xs → Apart (select p xs)
  Apart-select p [] h = tt
  Apart-select p (x ∷ xs) h =
      elim (p x) as (λ b. Apart (if b then x ∷ select p xs else select p xs)) [
        | true ↦ (All-select (R x) p xs h.0, Apart-select p xs h.1)
        | false ↦ Apart-select p xs h.1
      ]

  module _ (flip : (x y : A) → R x y → R y x) where
    Apart-insert_by :
        (le : A → A → Bool) (x : A) (xs : List A)
        → All (R x) xs
        → Apart xs
        → Apart (insert_by le x xs)
    Apart-insert_by le x [] h k = (tt, tt)
    Apart-insert_by le x (y ∷ ys) h k =
        elim (le x y) as (λ b. Apart (if b then x ∷ y ∷ ys else y ∷ insert_by le x ys)) [
          | true ↦ (h, k)
          | false ↦
              (All-insert_by (R y) le x ys (flip x y h.0) k.0, Apart-insert_by le x ys h.1 k.1)
        ]

    pub Apart-order_by : (le : A → A → Bool) (xs : List A) → Apart xs → Apart (order_by le xs)
    Apart-order_by le [] h = tt
    Apart-order_by le (x ∷ xs) h =
        Apart-insert_by le x (order_by le xs) (All-order_by (R x) le xs h.0)
          (Apart-order_by le xs h.1)

  module _ (p : A → Bool) (f : A → A) (left : (x y : A) → R x y → R (f x) y)
      (right : (x y : A) → R x y → R x (f y)) where
    All-update_right : (x : A) (ys : List A) → All (R x) ys → All (R x) (update_where p f ys)
    All-update_right x [] h = tt
    All-update_right x (y ∷ ys) h = (
      elim (p y) as (λ b. R x (if b then f y else y)) [ true ↦ right x y h.0 | false ↦ h.0 ],
      All-update_right x ys h.1,
    )

    pub Apart-update_where : (xs : List A) → Apart xs → Apart (update_where p f xs)
    Apart-update_where [] h = tt
    Apart-update_where (x ∷ xs) h = (
      elim (p x) as (λ b. All (R (if b then f x else x)) (update_where p f xs)) [
        | true ↦ All-imp (R x) (R (f x)) (left x) (update_where p f xs) (All-update_right x xs h.0)
        | false ↦ All-update_right x xs h.0
      ],
      Apart-update_where xs h.1,
    )

module _ {A : Type 0} where
  abbrev pub Member : A → List A → Type 0
  Member a = Some (λ x. x ≡ a)

  pub All-at : (P : A → Type 0) (a : A) (xs : List A) → All P xs → Member a xs → P a
  All-at P a [] h m = absurd m
  All-at P a (x ∷ xs) h (inl e) = subst P e h.0
  All-at P a (x ∷ xs) h (inr m) = All-at P a xs h.1 m

  pub All-of : (P : A → Type 0) (xs : List A) → ((a : A) → Member a xs → P a) → All P xs
  All-of P [] h = tt
  All-of P (x ∷ xs) h = (h x (inl refl), All-of P xs (λ a m. h a (inr m)))

  -- What a query finds is a row of the table that passes its test.
  pub select-Member :
      (p : A → Bool) (a : A) (xs : List A) → Member a (select p xs) → Member a xs × (p a ≡ true)
  select-Member p a [] m = absurd m
  select-Member p a (x ∷ xs) m = elim (Bool-cases (p x)) [
    | inl t ↦ found t (select-Member p a xs) (rw t at m)
    | inr f ↦ let (n, q) = select-Member p a xs (rw f at m) in (inr n, q)
  ]
    where
      found :
          p x ≡ true
          → (Member a (select p xs) → Member a xs × (p a ≡ true))
          → Member a (x ∷ select p xs)
          → Member a (x ∷ xs) × (p a ≡ true)
      found t rest (inl e) = (inl e, rw (← e) t)
      found t rest (inr n) = let (n', q) = rest n in (inr n', q)

  pub Member-select :
      (p : A → Bool) (a : A) (xs : List A) → Member a xs → p a ≡ true → Member a (select p xs)
  Member-select p a [] m q = m
  Member-select p a (x ∷ xs) (inl e) q = let t : p x ≡ true = rw e q in rw t (inl e)
  Member-select p a (x ∷ xs) (inr m) q =
      let rest = Member-select p a xs m q in
      elim (p x) as (λ b. Member a (if b then x ∷ select p xs else select p xs)) [
        | true ↦ inr rest
        | false ↦ rest
      ]

  pub Member-update_where_of_true :
      (p : A → Bool) (f : A → A) (a : A) (xs : List A)
      → Member a xs
      → p a ≡ true
      → Member (f a) (update_where p f xs)
  Member-update_where_of_true p f a (x ∷ xs) (inl e) t =
      inl (let q : p x ≡ true = rw e t in rw (q, e))
  Member-update_where_of_true p f a [] m t = m
  Member-update_where_of_true p f a (x ∷ xs) (inr m) t =
      inr (Member-update_where_of_true p f a xs m t)

  pub Member-update_where_of_false :
      (p : A → Bool) (f : A → A) (a : A) (xs : List A)
      → Member a xs
      → p a ≡ false
      → Member a (update_where p f xs)
  Member-update_where_of_false p f a [] m t = m
  Member-update_where_of_false p f a (x ∷ xs) (inl e) t =
      inl (let q : p x ≡ false = rw e t in rw (q, e))
  Member-update_where_of_false p f a (x ∷ xs) (inr m) t =
      inr (Member-update_where_of_false p f a xs m t)

-- `ys` is `xs` with each element moved along `R`, and further elements behind.
pub data Evolves {A : Type 0} (R : A → A → Type 0) : List A → List A → Type 0 where
  more : {ys : List A} → Evolves R [] ys
  next : {x y : A} {xs ys : List A} → R x y → Evolves R xs ys → Evolves R (x ∷ xs) (y ∷ ys)

module _ {A : Type 0} {R : A → A → Type 0} where
  pub Evolves-refl : ((x : A) → R x x) → (xs : List A) → Evolves R xs xs
  Evolves-refl r [] = more
  Evolves-refl r (x ∷ xs) = next (r x) (Evolves-refl r xs)

  pub Evolves-append : ((x : A) → R x x) → (xs ys : List A) → Evolves R xs (xs ++ ys)
  Evolves-append r [] ys = more
  Evolves-append r (x ∷ xs) ys = next (r x) (Evolves-append r xs ys)

  pub Evolves-trans :
      ((x y z : A) → R x y → R y z → R x z)
      → {xs ys zs : List A} → Evolves R xs ys
      → Evolves R ys zs
      → Evolves R xs zs
  Evolves-trans t more k = more
  Evolves-trans t (next {x = x} {y = y} h hs) (next {y = z} k ks) =
      next (t x y z h k) (Evolves-trans t hs ks)

  -- An update moves the rows that it selects, and no others.
  pub Evolves-update_where :
      ((x : A) → R x x)
      → (p : A → Bool) (f : A → A) (xs : List A) → All (λ x. p x ≡ true → R x (f x)) xs
      → Evolves R xs (update_where p f xs)
  Evolves-update_where r p f [] h = more
  Evolves-update_where r p f (x ∷ xs) h =
      next (elim (Bool-cases (p x)) [ inl t ↦ rw t (h.0 t) | inr u ↦ rw u (r x) ])
        (Evolves-update_where r p f xs h.1)

module _ {ℓ} {A : Type ℓ} (R : A → A → Type 0) where
  pub Apart-take : (n : ℕ) (xs : List A) → Apart R xs → Apart R (take n xs)
  Apart-take zero xs h = tt
  Apart-take (suc n) [] h = tt
  Apart-take (suc n) (x ∷ xs) h = (All-take (R x) n xs h.0, Apart-take n xs h.1)
