-- ===== src/Session/Frames.antt =====
-- Transactions that leave a part of the tables as it is: one rule for each way to build a transaction.
use mad_devs_note_taker.Base.{
  ◌≡◌, refl, ◌∙◌, Bool, true, false, if◌then◌else◌, Option, some, none, List, [], ◌∷◌, suc,
}
use mad_devs_note_taker.Base.Results.{Result, ok, err}
use mad_devs_note_taker.Models.{Db}
use mad_devs_note_taker.Session.{
  M, Error, ◌>>=◌, ◌>>◌, pure, raise, lift, gets, modify, raise_if, found_or, when, for_each, uuid4,
  utcnow,
}
use mad_devs_note_taker.Session.Rules.{IfReturns, IfReturns-bind, IfReturns-imp}

module _ {X : Type 0} (view : Db → X) where
  pub record Frames {A : Type 0} (m : M A) : Type 0 where
    pub at : (s : Db) → IfReturns (λ _ t. view t ≡ view s) (m s)

lifted :
    {X A : Type 0} (view : Db → X) (r : Result Error A) (s : Db)
    → IfReturns (λ _ t. view t ≡ view s) (lift r s)
lifted view (ok a) s = refl
lifted view (err e) s = tt

module _ {X : Type 0} {view : Db → X} where
  module _ {A : Type 0} where
    pub Frames-pure : (a : A) → Frames view (pure a)
    Frames-pure a = record { at = λ s. refl }

    pub Frames-raise : (e : Error) → Frames view (raise {A = A} e)
    Frames-raise e = record { at = λ s. tt }

    pub Frames-gets : (f : Db → A) → Frames view (gets f)
    Frames-gets f = record { at = λ s. refl }

    pub Frames-read : (f : Db → Result Error A) → Frames view (λ s. lift (f s) s)
    Frames-read f = record { at = λ s. lifted view (f s) s }

    pub Frames-lift : (r : Result Error A) → Frames view (lift r)
    Frames-lift r = record { at = λ s. lifted view r s }

    pub Frames-found_or : (m : M A) (o : Option A) → Frames view m → Frames view (found_or m o)
    Frames-found_or m none k = k
    Frames-found_or m (some a) k = Frames-pure a

    pub Frames-if :
        (b : Bool) (m n : M A) → Frames view m → Frames view n → Frames view (if b then m else n)
    Frames-if true m n k l = k
    Frames-if false m n k l = l

  module _ {A B : Type 0} where
    pub Frames-bind :
        (m : M A) (f : A → M B)
        → Frames view m
        → ((a : A) → Frames view (f a))
        → Frames view (m >>= f)
    Frames-bind m f k l = record {
      at = λ s.
          IfReturns-bind (λ _ t. view t ≡ view s) (λ _ t. view t ≡ view s) m f s (k.at s)
            (λ a t e.
              IfReturns-imp (λ _ u. view u ≡ view t) (λ _ u. view u ≡ view s) (f a t)
                (λ _ u q. q ∙ e) ((l a).at t));
    }

    pub Frames-then : (m : M A) (k : M B) → Frames view m → Frames view k → Frames view (m >> k)
    Frames-then m k f g = Frames-bind m (λ _. k) f (λ _. g)

  pub Frames-for_each :
      {A : Type 0} (xs : List A) (body : A → M (Unit {0}))
      → ((x : A) → Frames view (body x))
      → Frames view (for_each xs body)
  unfolding for_each
  Frames-for_each [] body k = Frames-pure tt
  Frames-for_each (x ∷ xs) body k =
      Frames-then (body x) (for_each xs body) (k x) (Frames-for_each xs body k)

  pub Frames-when : (b : Bool) (m : M (Unit {0})) → Frames view m → Frames view (when b m)
  Frames-when true m k = k
  Frames-when false m k = Frames-pure tt

  pub Frames-raise_if : (b : Bool) (e : Error) → Frames view (raise_if b e)
  Frames-raise_if true e = record { at = λ s. tt }
  Frames-raise_if false e = record { at = λ s. refl }

  -- The error shows what was read.
  pub Frames-raise_if_read :
      (b : Db → Bool) (e : Db → Error) → Frames view (λ s. raise_if (b s) (e s) s)
  Frames-raise_if_read b e = record { at = λ s. (Frames-raise_if (b s) (e s)).at s }

  pub Frames-modify : (f : Db → Db) → ((s : Db) → view (f s) ≡ view s) → Frames view (modify f)
  Frames-modify f k = record { at = k }

  pub Frames-uuid4 :
      ((s : Db) → view (record s { next_uuid = suc s.next_uuid }) ≡ view s) → Frames view uuid4
  unfolding uuid4
  Frames-uuid4 k = record { at = k }

  pub Frames-utcnow :
      ((s : Db) → view (record s { reads = suc s.reads }) ≡ view s) → Frames view utcnow
  unfolding utcnow
  Frames-utcnow k = record { at = k }

pub ruleset frames_rules = (
  Frames-pure, Frames-raise, Frames-gets, Frames-read, Frames-lift, Frames-found_or, Frames-if,
  Frames-bind, Frames-then, Frames-for_each, Frames-when, Frames-raise_if, Frames-raise_if_read,
  Frames-modify, Frames-uuid4, Frames-utcnow, refl,
)

-- And gives a value of which `Q` holds.
module _ {X : Type 0} (view : Db → X) where
  pub record Answers {A : Type 0} (Q : A → Type 0) (m : M A) : Type 0 where
    pub at : (s : Db) → IfReturns (λ a t. (view t ≡ view s) × Q a) (m s)

module _ {X : Type 0} {view : Db → X} {B : Type 0} {Q : B → Type 0} where
  pub Answers-gets : (f : Db → B) → ((s : Db) → Q (f s)) → Answers view Q (gets f)
  Answers-gets f k = record { at = λ s. (refl, k s) }

  pub Answers-bind :
      {A : Type 0} (m : M A) (f : A → M B)
      → Frames view m
      → ((a : A) → Answers view Q (f a))
      → Answers view Q (m >>= f)
  Answers-bind m f k l = record {
    at = λ s.
        IfReturns-bind (λ b t. (view t ≡ view s) × Q b) (λ _ t. view t ≡ view s) m f s (k.at s)
          (λ a t e.
            IfReturns-imp (λ b u. (view u ≡ view t) × Q b) (λ b u. (view u ≡ view s) × Q b) (f a t)
              (λ _ u q. (q.0 ∙ e, q.1)) ((l a).at t));
  }

  pub Answers-then :
      {A : Type 0} (m : M A) (k : M B) → Frames view m → Answers view Q k → Answers view Q (m >> k)
  Answers-then m k f g = Answers-bind m (λ _. k) f (λ _. g)

pub ruleset answers_rules = (frames_rules, Answers-gets, Answers-bind, Answers-then)
