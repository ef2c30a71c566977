-- ===== src/Api/Queries.antt =====
-- Reading notes: `_notes_filter`, `list_notes`, `calendar`, `_note_group`, `upcoming` and `notifications`.
pub mod Pages
mod Tests
use mad_devs_note_taker.Base.{
  ℕ, ◌-◌, ◌*◌, min, Bool, true, false, ◌&&◌, ◌||◌, not, if◌then◌else◌, ltb, leb, ◌==◌, Option, some,
  none, is_none, is_some, List, [], ◌∷◌, select, any, all, take, drop, length,
}
use mad_devs_note_taker.Base.Tables.{order_by}
use mad_devs_note_taker.Base.Text.{strip, starts_with}
use mad_devs_note_taker.Models.{Db, Text, Note, NoteTag}
use mad_devs_note_taker.Schemas.{NoteResponse}
use mad_devs_note_taker.Session.{M, ◌>>=◌, ◌>>◌, raise_if, gets, api_error, day}
use mad_devs_note_taker.Notes.{notes_response}

pub record Page (A : Type 0) : Type 0 where
  pub items : List A
  pub total : ℕ
  pub page : ℕ
  pub page_size : ℕ

-- A query string's filter. `search_text` and `fold`, the case mapping of ILIKE, are the data base's, and the case
-- mapping `lower` is Python's.
pub record Filter : Type 0 where
  pub q : Option Text
  pub tag_ids : List ℕ
  pub active : Option Bool
  pub starts_from : Option ℕ
  pub starts_to : Option ℕ
  pub trash : Bool

-- A text that contains another.
unfoldable pub contains_text : Text → Text → Bool
contains_text t [] = starts_with [] t
contains_text t (c ∷ s) = starts_with (c ∷ s) t || contains_text t s

abbrev pub optional : {A : Type 0} → (A → Bool) → Option A → Bool
optional p none = true
optional p (some a) = p a

abbrev pub same_bool : Bool → Bool → Bool
same_bool true b = b
same_bool false b = not b

-- All the selected tags are on the note.
abbrev pub has_all_tags : List ℕ → Db → Note → Bool
has_all_tags tag_ids s n =
    all (λ (t : ℕ). any (λ (l : NoteTag). (l.note_id == n.id) && (l.tag_id == t)) s.note_tags)
      tag_ids

unfoldable pub matches : (Text → Text) → (Text → Text) → (Note → Text) → Filter → Db → Note → Bool
unfolding contains_text
matches lower fold search_text f s n =
    is_none n.superseded_at
    && is_none n.purged_at
    && (if f.trash then is_some n.deleted_at && is_none n.purged_at else is_none n.deleted_at)
    && optional (same_bool n.active) f.active
    && optional (λ (t : ℕ). leb t n.starts_at) f.starts_from
    && optional (λ (t : ℕ). ltb n.starts_at t) f.starts_to
    && optional (λ (q : Text). contains_text (fold (lower (strip q))) (fold (search_text n))) f.q
    && has_all_tags f.tag_ids s n

abbrev pub is_too_short : Option Text → Bool
is_too_short none = false
is_too_short (some q) = ltb (length (strip q)) 3

abbrev pub is_empty_range : Option ℕ → Option ℕ → Bool
is_empty_range none starts_to = false
is_empty_range (some a) none = false
is_empty_range (some a) (some b) = leb b a

-- `offset((page - 1) * page_size).limit(page_size)`
unfoldable pub page_of : {A : Type 0} → ℕ → ℕ → List A → List A
page_of page page_size rows = take page_size (drop ((page - 1) * page_size) rows)

unfoldable pub list_notes :
    (Text → Text)
    → (Text → Text)
    → (Note → Text)
    → Filter
    → (Note → Note → Bool)
    → ℕ
    → ℕ
    → M (Page NoteResponse)
unfolding matches page_of
list_notes lower fold search_text f order page page_size = do
  raise_if (is_empty_range f.starts_from f.starts_to)
      (api_error 422 "validation_error" "Invalid range" ("starts_to" ∷ []) none)
  raise_if (is_too_short f.q)
      (api_error 422 "validation_error" "Search text is too short" ("q" ∷ []) none)
  gets (λ s. record {
    items =
        notes_response
          (page_of page page_size
            (order_by order (select (matches lower fold search_text f s) s.notes)))
          s;
    total = length (select (matches lower fold search_text f s) s.notes);
    page = page;
    page_size = page_size;
  })

abbrev pub by_start : Note → Note → Bool
by_start a b = ltb a.starts_at b.starts_at || ((a.starts_at == b.starts_at) && leb a.id b.id)

-- Neither deleted, superseded nor purged.
abbrev pub is_visible : Note → Bool
is_visible n = is_none n.deleted_at && is_none n.superseded_at && is_none n.purged_at

unfoldable pub calendar : ℕ → ℕ → M (List NoteResponse)
calendar starts_from starts_to = do
  raise_if (leb starts_to starts_from || ltb (93 * day) (starts_to - starts_from)) (
      api_error 422 "invalid_range" "Calendar range must be positive and no longer than 93 days"
        ("starts_to" ∷ []) none)
  rows ← gets (λ s. take 5001 (
      order_by by_start (
        select
          (λ (n : Note). is_visible n && leb starts_from n.starts_at && ltb n.starts_at starts_to)
          s.notes)))
  raise_if (ltb 5000 (length rows))
      (api_error 413 "range_too_large" "Too many calendar notes; narrow the range" [] none)
  gets (notes_response rows)

unfoldable pub note_group : (Note → Bool) → ℕ → ℕ → Db → Page NoteResponse
unfolding page_of
note_group conditions page page_size s = record {
  items = notes_response (page_of page page_size (order_by by_start (select conditions s.notes))) s;
  total = length (select conditions s.notes);
  page = page;
  page_size = page_size;
}

pub record Upcoming : Type 0 where
  pub today : Page NoteResponse
  pub week : Page NoteResponse
  pub past : Page NoteResponse
  pub server_now : ℕ
  pub next_transition_at : ℕ

abbrev pub is_shown : Note → Bool
is_shown n = is_visible n && n.active

abbrev pub in_today : ℕ → ℕ → Note → Bool
in_today now tomorrow n = is_shown n && leb now n.starts_at && ltb n.starts_at tomorrow

abbrev pub in_week : ℕ → ℕ → Note → Bool
in_week tomorrow week_end n = is_shown n && leb tomorrow n.starts_at && ltb n.starts_at week_end

abbrev pub in_past : ℕ → Note → Bool
in_past now n = is_shown n && ltb n.starts_at now

-- `min(Note.starts_at)` of the shown notes from now on, and the two midnights.
unfoldable pub next_transition : ℕ → ℕ → List Note → ℕ
next_transition now least [] = least
next_transition now least (n ∷ ns) =
    next_transition now (if is_shown n && leb now n.starts_at then min least n.starts_at else least)
      ns

-- The midnights are those of the profile's zone: the next one, and that after the coming Sunday.
unfoldable pub upcoming : ℕ → ℕ → ℕ → ℕ → ℕ → Db → Upcoming
unfolding note_group next_transition
upcoming now tomorrow week_end page page_size s = record {
  today = note_group (in_today now tomorrow) page page_size s;
  week = note_group (in_week tomorrow week_end) page page_size s;
  past = note_group (in_past now) page page_size s;
  server_now = now;
  next_transition_at = next_transition now (min tomorrow week_end) s.notes;
}
