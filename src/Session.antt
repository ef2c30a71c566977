-- ===== src/Session.antt =====
-- Transactions. A handler runs inside `session.begin()`: it returns with the new tables, or raises and
-- the data base keeps what it had, so a raise carries no tables. ApiError is that of
-- backend/app/api/errors.py; of `field_errors` the names of the fields are kept.
pub mod Rules
pub mod Frames
pub mod Found
use mad_devs_note_taker.Base.{
  ℕ, suc, ◌+◌, ◌-◌, ◌*◌, Bool, true, false, if◌then◌else◌, ltb, leb, Option, some, none, List, [],
  ◌∷◌, String, ◌≡◌, refl, ◌⊎◌, inl, inr,
}
use mad_devs_note_taker.Base.Results.{Result, ok, err}
use mad_devs_note_taker.Models.{Db}
use mad_devs_note_taker.Schemas.{TagResponse, SettingsResponse, NoteResponse}

-- The JSON object `current` of an error.
pub data Current : Type 0 where
  settings : SettingsResponse → Current
  tag : TagResponse → Current
  note : NoteResponse → Current
  versioned : ℕ → ℕ → Current
  leaf : ℕ → Option ℕ → Option ℕ → Current
  note_ids : List ℕ → Current
  recurrence_keys : List ℕ → Current
  collisions : List (ℕ × Option ℕ × ℕ) → Current

pub record ApiError : Type 0 where
  pub status_code : ℕ
  pub code : String
  pub message : String
  pub field_errors : List String
  pub current : Option Current

-- An ApiError, or an exception of the libraries: a query's `one()` or `scalar_one()` with no row, or
-- with several, the OverflowError of a `datetime`, a ValueError, or a missing zone.
pub data Error : Type 0 where
  api : ApiError → Error
  no_result_found multiple_results_found overflow_error value_error zone_not_found : Error

abbrev pub M : Type 0 → Type 0
M A = Db → Result Error (A × Db)

infixl 5 ◌>>=◌ ◌>>◌
abbrev pub ◌>>=◌ : {A B : Type 0} → M A → (A → M B) → M B
◌>>=◌ m f s = elim (m s) [ err e ↦ err e | ok (a, s') ↦ f a s' ]

abbrev pub ◌>>◌ : {A B : Type 0} → M A → M B → M B
m >> k = m >>= λ _. k

abbrev pub pure : {A : Type 0} → A → M A
pure a s = ok (a, s)

abbrev pub raise : {A : Type 0} → Error → M A
raise e s = err e

abbrev pub lift : {A : Type 0} → Result Error A → M A
lift (ok a) s = ok (a, s)
lift (err e) s = err e

abbrev pub gets : {A : Type 0} → (Db → A) → M A
gets f s = ok (f s, s)

abbrev pub modify : (Db → Db) → M (Unit {0})
modify f s = ok (tt, f s)

abbrev pub raise_if : Bool → Error → M (Unit {0})
raise_if b e s = if b then err e else ok (tt, s)

abbrev pub found_or : {A : Type 0} → M A → Option A → M A
found_or otherwise none = otherwise
found_or otherwise (some a) = pure a

-- `if b: m`
abbrev pub when : Bool → M (Unit {0}) → M (Unit {0})
when true m = m
when false m = pure tt

-- Transactions in a row, each committed before the next: the value or the error that ended them, and the rows
-- as the last commit left them.
abbrev pub Job : Type 0 → Type 0
Job A = Db → Result Error A × Db

abbrev pub done : {A : Type 0} → A → Job A
done a s = (ok a, s)

-- One transaction, which an error rolls back, and what follows its commit.
abbrev pub commit : {A B : Type 0} → M A → (A → Job B) → Job B
commit m k s = elim (m s) [ err e ↦ (err e, s) | ok (a, s') ↦ k a s' ]

-- `for a in xs: body(a)`
unfoldable pub for_each : {A : Type 0} → List A → (A → M (Unit {0})) → M (Unit {0})
for_each [] body = pure tt
for_each (x ∷ xs) body = body x >> for_each xs body

abbrev pub api_error : ℕ → String → String → List String → Option Current → Error
api_error status_code code message field_errors current = api (record {
  status_code = status_code;
  code = code;
  message = message;
  field_errors = field_errors;
  current = current;
})

-- `scalar_one_or_none()` and `one()`
unfoldable pub one_or_none : {A : Type 0} → List A → Result Error (Option A)
one_or_none [] = ok none
one_or_none (x ∷ []) = ok (some x)
one_or_none (x ∷ y ∷ xs) = err multiple_results_found

unfoldable pub one : {A : Type 0} → List A → Result Error A
one [] = err no_result_found
one (x ∷ []) = ok x
one (x ∷ y ∷ xs) = err multiple_results_found

abbrev pub second : ℕ
second = 1_000_000

abbrev pub minute : ℕ
minute = 60 * second

abbrev pub day : ℕ
day = 86400 * second

-- The first instant after the year 9999.
abbrev pub end_of_time : ℕ
end_of_time = 3_652_059 * day

-- `datetime` minus and plus a `timedelta`; both raise outside the years 1 to 9999.
unfoldable pub minus : ℕ → ℕ → Result Error ℕ
minus t d = if ltb t d then err overflow_error else ok (t - d)

unfoldable pub plus : ℕ → ℕ → Result Error ℕ
plus t d = if ltb (t + d) end_of_time then ok (t + d) else err overflow_error

-- uuid.uuid4() and datetime.now(UTC)
unfoldable pub uuid4 : M ℕ
uuid4 s = ok (s.next_uuid, record s { next_uuid = suc s.next_uuid })

unfoldable pub utcnow : M ℕ
utcnow s = ok (s.clock s.reads, record s { reads = suc s.reads })
