-- ===== src/Session/Found.antt =====
-- Rows that a query for one row found.
use mad_devs_note_taker.Base.{◌≡◌, Bool, true, some, List, [], ◌∷◌, select, inl}
use mad_devs_note_taker.Base.Apart.{Member, select-Member}
use mad_devs_note_taker.Base.Results.{ok}
use mad_devs_note_taker.Session.{one, one_or_none}

-- Where a query found one row, it is a row of the table that passes the test.
module _ {A : Type 0} (p : A → Bool) (a : A) (xs : List A) where
  one-Member : (ys : List A) → one ys ≡ ok a → Member a ys
  unfolding one
  one-Member [] e = absurd cc
  one-Member (y ∷ []) e = inl (cc e)
  one-Member (y ∷ z ∷ ys) e = absurd cc

  one_or_none-Member : (ys : List A) → one_or_none ys ≡ ok (some a) → Member a ys
  unfolding one_or_none
  one_or_none-Member [] e = absurd cc
  one_or_none-Member (y ∷ []) e = inl (cc e)
  one_or_none-Member (y ∷ z ∷ ys) e = absurd cc

  pub one-found : one (select p xs) ≡ ok a → Member a xs × (p a ≡ true)
  one-found e = select-Member p a xs (one-Member (select p xs) e)

  pub one_or_none-found : one_or_none (select p xs) ≡ ok (some a) → Member a xs × (p a ≡ true)
  one_or_none-found e = select-Member p a xs (one_or_none-Member (select p xs) e)
