-- ===== src/Session/Rules.antt =====
-- Proof rules for transactions: a transaction returns, and what holds of its result.
use mad_devs_note_taker.Base.{◌≡◌, refl, Bool, true, false, Option, some, none, List, [], ◌∷◌}
use mad_devs_note_taker.Base.Results.{Result, ok, err}
use mad_devs_note_taker.Models.{Db}
use mad_devs_note_taker.Session.{
  Job, commit, M, Error, lift, raise, raise_if, found_or, ◌>>=◌, for_each,
}

-- The run returns, in a state and with a value of which `Q` holds.
abbrev pub Returns : {A : Type 0} → (A → Db → Type 0) → Result Error (A × Db) → Type 0
Returns Q (ok (a, s)) = Q a s
Returns Q (err e) = ⊥

-- The transactions in a row end with a value, with rows and a value of which `Q` holds.
abbrev pub Ends : {A : Type 0} → (A → Db → Type 0) → Result Error A × Db → Type 0
Ends Q (ok a, s) = Q a s
Ends Q (err e, s) = ⊥

pub Ends-imp :
    {A : Type 0} (P Q : A → Db → Type 0) (r : Result Error A × Db)
    → ((a : A) (t : Db) → P a t → Q a t)
    → Ends P r
    → Ends Q r
Ends-imp P Q (ok a, t) f h = f a t h
Ends-imp P Q (err e, t) f h = absurd h

module _ {A B : Type 0} where
  committed :
      (P : A → Db → Type 0) (Q : B → Db → Type 0) (k : A → Job B) (s : Db)
      (r : Result Error (A × Db))
      → Returns P r
      → ((a : A) (t : Db) → P a t → Ends Q (k a t))
      → Ends Q (elim r [ err e ↦ (err e, s) | ok (a, t) ↦ k a t ])
  committed P Q k s (ok (a, t)) h f = f a t h
  committed P Q k s (err e) h f = absurd h

  pub Ends-commit :
      (P : A → Db → Type 0) (Q : B → Db → Type 0) (m : M A) (k : A → Job B) (s : Db)
      → Returns P (m s)
      → ((a : A) (t : Db) → P a t → Ends Q (k a t))
      → Ends Q (commit m k s)
  Ends-commit P Q m k s h f = committed P Q k s (m s) h f

module _ {A B : Type 0} where
  continue :
      (P : A → Db → Type 0) (Q : B → Db → Type 0) (f : A → M B) (r : Result Error (A × Db))
      → Returns P r
      → ((a : A) (s : Db) → P a s → Returns Q (f a s))
      → Returns Q (elim r [ err e ↦ err e | ok (a, s') ↦ f a s' ])
  continue P Q f (ok (a, s)) h k = k a s h
  continue P Q f (err e) h k = absurd h

  pub Returns-bind :
      (P : A → Db → Type 0) (Q : B → Db → Type 0) (m : M A) (f : A → M B) (s : Db)
      → Returns P (m s)
      → ((a : A) (s' : Db) → P a s' → Returns Q (f a s'))
      → Returns Q ((m >>= f) s)
  Returns-bind P Q m f s h k = continue P Q f (m s) h k

module _ {A : Type 0} where
  pub Returns-imp :
      (P Q : A → Db → Type 0) (r : Result Error (A × Db))
      → ((a : A) (s : Db) → P a s → Q a s)
      → Returns P r
      → Returns Q r
  Returns-imp P Q (ok (a, s)) f h = f a s h
  Returns-imp P Q (err e) f h = absurd h

  -- From the equation of a run that returned.
  pub Returns-at :
      (Q : A → Db → Type 0) (r : Result Error (A × Db)) {a : A} {s : Db}
      → r ≡ ok (a, s)
      → Returns Q r
      → Q a s
  Returns-at Q r e h = rw e at h

  -- And back: a run that returns has a value and a state.
  pub Returns-out :
      (Q : A → Db → Type 0) (r : Result Error (A × Db))
      → Returns Q r
      → (a : A) × (s : Db) × (r ≡ ok (a, s)) × Q a s
  Returns-out Q (ok (a, s)) h = (a, s, refl, h)
  Returns-out Q (err e) h = absurd h

-- A loop keeps an invariant that may speak of the elements still to come.
pub Returns-for_each :
    {A : Type 0} (I : List A → Db → Type 0) (body : A → M (Unit {0}))
    → ((x : A) (xs : List A) (s : Db) → I (x ∷ xs) s → Returns (λ _ s'. I xs s') (body x s))
    → (xs : List A) (s : Db) → I xs s
    → Returns (λ _ s'. I [] s') (for_each xs body s)
unfolding for_each
Returns-for_each I body keep [] s h = h
Returns-for_each I body keep (x ∷ xs) s h =
    Returns-bind (λ _ s'. I xs s') (λ _ s'. I [] s') (body x) (λ _. for_each xs body) s
      (keep x xs s h) (λ _ s' k. Returns-for_each I body keep xs s' k)

-- What holds of a run when it returns. A raise keeps the tables.
abbrev pub IfReturns : {A : Type 0} → (A → Db → Type 0) → Result Error (A × Db) → Type 0
IfReturns Q (ok (a, s)) = Q a s
IfReturns Q (err e) = Unit

module _ {A B : Type 0} (Q : B → Db → Type 0) where
  if_continue :
      (P : A → Db → Type 0) (f : A → M B) (r : Result Error (A × Db))
      → IfReturns P r
      → ((a : A) (s : Db) → P a s → IfReturns Q (f a s))
      → IfReturns Q (elim r [ err e ↦ err e | ok (a, s') ↦ f a s' ])
  if_continue P f (ok (a, s)) h k = k a s h
  if_continue P f (err e) h k = tt

  pub IfReturns-bind :
      (P : A → Db → Type 0) (m : M A) (f : A → M B) (s : Db)
      → IfReturns P (m s)
      → ((a : A) (s' : Db) → P a s' → IfReturns Q (f a s'))
      → IfReturns Q ((m >>= f) s)
  IfReturns-bind P m f s h k = if_continue P f (m s) h k

  -- A value that was read.
  pub IfReturns-read :
      (r : Result Error A) (f : A → M B) (s : Db)
      → ((a : A) → r ≡ ok a → IfReturns Q (f a s))
      → IfReturns Q ((lift r >>= f) s)
  IfReturns-read (ok a) f s k = k a refl
  IfReturns-read (err e) f s k = tt

pub IfReturns-imp :
    {A : Type 0} (P Q : A → Db → Type 0) (r : Result Error (A × Db))
    → ((a : A) (s : Db) → P a s → Q a s)
    → IfReturns P r
    → IfReturns Q r
IfReturns-imp P Q (ok (a, s)) f h = f a s h
IfReturns-imp P Q (err e) f h = tt

pub IfReturns-both :
    {A : Type 0} (P Q : A → Db → Type 0) (r : Result Error (A × Db))
    → IfReturns P r
    → IfReturns Q r
    → IfReturns (λ a s. P a s × Q a s) r
IfReturns-both P Q (ok (a, s)) h k = (h, k)
IfReturns-both P Q (err e) h k = tt

-- A guard that did not raise.
pub raise_if-passed :
    (b : Bool) (e : Error) (s : Db) → IfReturns (λ _ t. (t ≡ s) × (b ≡ false)) (raise_if b e s)
raise_if-passed true e s = tt
raise_if-passed false e s = (refl, refl)

-- A row that was found.
pub IfReturns-found :
    {A B : Type 0} (Q : B → Db → Type 0) (o : Option A) (e : Error) (f : A → M B) (s : Db)
    → ((a : A) → o ≡ some a → IfReturns Q (f a s))
    → IfReturns Q ((found_or (raise e) o >>= f) s)
IfReturns-found Q none e f s k = tt
IfReturns-found Q (some a) e f s k = k a refl
