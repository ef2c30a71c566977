-- ===== src/Base/Keyed.antt =====
-- Tables whose rows have a key that is drawn from a counter and never twice, and that all satisfy a check.
use mad_devs_note_taker.Base.{
  ℕ, suc, ◌<◌, ◌≡◌, ◌≢◌, sym, ap, ◌∙◌, subst, Bool, true, false, List, [], ◌∷◌, ◌++◌, arith, All,
  All-imp, All-append, All-select, select, ◌==◌, ==→eq, inl, inr, Bool-cases,
}
use mad_devs_note_taker.Base.Tables.{update_where, All-update_where}
use mad_devs_note_taker.Base.Apart.{
  Apart, Apart-append, Apart-select, Apart-update_where, Member, All-at,
  Member-update_where_of_false,
}

module _ {A : Type 0} (key : A → ℕ) where
  abbrev pub Other : A → A → Type 0
  Other x y = key x ≢ key y

  -- The row with a member's key is that member.
  pub same_key :
      (a : A) (xs : List A)
      → Apart Other xs
      → Member a xs
      → All (λ x. (key x == key a) ≡ true → x ≡ a) xs
  same_key a [] h m = tt
  same_key a (x ∷ xs) h (inl e) = (
    (λ _. e),
    All-imp (Other x) _
        (λ y other same. absurd (other (ap key e ∙ sym (==→eq (key y) (key a) same)))) xs h.0,
  )
  same_key a (x ∷ xs) h (inr m) = (
    (λ same. absurd (All-at (Other x) a xs h.0 m (==→eq (key x) (key a) same))),
    same_key a xs h.1 m,
  )

  pub All-write :
      (P : A → Type 0) (f : A → A) (a : A) (xs : List A)
      → All (λ x. (key x == key a) ≡ true → x ≡ a) xs
      → P (f a)
      → All P xs
      → All P (update_where (λ x. key x == key a) f xs)
  All-write P f a [] same p h = tt
  All-write P f a (x ∷ xs) same p h = (
    elim (Bool-cases (key x == key a)) [
      | inl t ↦ rw t (subst (λ y. P (f y)) (sym (same.0 t)) p)
      | inr u ↦ rw u h.0
    ],
    All-write P f a xs same.1 p h.1,
  )

  -- A write to another row leaves a member where it is.
  pub Member-write :
      (f : A → A) (a b : A) (xs : List A)
      → Other b a
      → Member a xs
      → Member a (update_where (λ x. key x == key b) f xs)
  Member-write f a b xs other m =
      Member-update_where_of_false (λ x. key x == key b) f a xs m (unequal (key a) (key b) other)
    where
      unequal : (i j : ℕ) → j ≢ i → (i == j) ≡ false
      unequal i j h = ground (arith, h)

  pub record IsTable (P : A → Type 0) (next : ℕ) (xs : List A) : Type 0 where
    pub apart : Apart Other xs
    pub drawn : All (λ x. key x < next) xs
    pub rows : All P xs

module _ {A : Type 0} {key : A → ℕ} {P : A → Type 0} {next : ℕ} where
  pub IsTable-draw : (xs : List A) → IsTable key P next xs → IsTable key P (suc next) xs
  IsTable-draw xs h = record {
    apart = h.apart;
    drawn = All-imp _ _ (λ x k. omega (arith, k)) xs h.drawn;
    rows = h.rows;
  }

  pub IsTable-add :
      (a : A) (xs : List A)
      → key a ≡ next
      → P a
      → IsTable key P next xs
      → IsTable key P (suc next) (xs ++ a ∷ [])
  IsTable-add a xs e p h = record {
    apart =
        Apart-append (Other key) xs a h.apart
          (All-imp _ _ (λ x k same. absurd (omega (arith, k, same, e))) xs h.drawn);
    drawn =
        All-append _ xs (a ∷ []) (All-imp _ _ (λ x k. omega (arith, k)) xs h.drawn)
          (omega (arith, e), tt);
    rows = All-append P xs (a ∷ []) h.rows (p, tt);
  }

  pub IsTable-write :
      (f : A → A) (a : A) (xs : List A)
      → ((x : A) → key (f x) ≡ key x)
      → Member a xs
      → P (f a)
      → IsTable key P next xs
      → IsTable key P next (update_where (λ x. key x == key a) f xs)
  IsTable-write f a xs same m p h = record {
    apart =
        Apart-update_where (Other key) _ f (λ x y k e. k (sym (same x) ∙ e))
          (λ x y k e. k (e ∙ same y)) xs h.apart;
    drawn = All-update_where _ _ f (λ x k. rw (same x) k) xs h.drawn;
    rows = All-write key P f a xs (same_key key a xs h.apart m) p h.rows;
  }

  pub IsTable-select :
      (p : A → Bool) (xs : List A) → IsTable key P next xs → IsTable key P next (select p xs)
  IsTable-select p xs h = record {
    apart = Apart-select (Other key) p xs h.apart;
    drawn = All-select _ p xs h.drawn;
    rows = All-select P p xs h.rows;
  }
