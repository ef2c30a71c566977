-- ===== src/Api/NoteHandlers/Editing.antt =====
-- `update_note` changes the one note that the client saw, and no other.
use mad_devs_note_taker.Base.{
  ℕ, subst, [], ◌+◌, suc, ap, ◌≡◌, refl, sym, ◌∙◌, Bool, false, not, ◌&&◌, ◌==◌, ==→eq, Option,
  some, none, is_some, is_none, List, select, Bool-cases, inl, inr, arith, String,
}
use mad_devs_note_taker.Base.Apart.{Member}
use mad_devs_note_taker.Base.Tables.{update_where}
use mad_devs_note_taker.Base.Text.{strip, is_empty}
use mad_devs_note_taker.Base.Results.{ok}
use mad_devs_note_taker.Models.{Db, Note, OccurrenceException}
use mad_devs_note_taker.Schemas.{NoteUpdate, NoteResponse}
use mad_devs_note_taker.Session.{one_or_none, utcnow, found_or, raise, api_error}
use mad_devs_note_taker.Session.Rules.{
  IfReturns, IfReturns-bind, IfReturns-read, IfReturns-imp, raise_if-passed,
}
use mad_devs_note_taker.Session.Frames.{Frames, frames_rules, Answers, answers_rules}
use mad_devs_note_taker.Notes.{
  add_event, require_note, check_note_version, replace_tags, validate_tags, write_note, lock_series,
  lock_series_by, write_series, note_response,
}
use mad_devs_note_taker.Exceptions.{
  set_exception, set_exception_for, set_exception_at, put_exception,
}
use mad_devs_note_taker.Reminders.{reconcile_reminders}
use mad_devs_note_taker.Reminders.Frame.{trash_view, Frames-reconcile_reminders}
use mad_devs_note_taker.Session.Found.{one_or_none-found}
use mad_devs_note_taker.Api.NoteHandlers.{
  edited, edit_note, spread_edit, check_in_place, update_note, locked_note_and_series,
}

abbrev pub notes_of : Db → List Note
notes_of s = s.notes

Frames-lock_series : (o expected : Option ℕ) → Frames notes_of (lock_series o expected)
unfolding lock_series lock_series_by write_series
Frames-lock_series none expected = search (frames_rules)
Frames-lock_series (some id) none = search (frames_rules)
Frames-lock_series (some id) (some version) = search (frames_rules) depth 10

pub Frames-validate_tags : (ids : List ℕ) → Frames notes_of (validate_tags ids)
unfolding validate_tags
Frames-validate_tags ids = search (frames_rules)

Frames-replace_tags : (note : Note) (ids : List ℕ) → Frames notes_of (replace_tags note ids)
unfolding replace_tags
Frames-replace_tags note ids = search (frames_rules, Frames-validate_tags) depth 10

pub Frames-reconcile :
    (note : Note) (offsets : List ℕ) (changed : Bool) (now : ℕ)
    → Frames notes_of (reconcile_reminders note offsets changed now)
Frames-reconcile note offsets changed now = record {
  at = λ s.
      IfReturns-imp (λ _ t. trash_view t ≡ trash_view s) (λ _ t. t.notes ≡ s.notes)
        (reconcile_reminders note offsets changed now s) (λ _ t e. ap (λ v. v.0) e)
        ((Frames-reconcile_reminders note offsets changed now).at s);
}

Frames-put_exception :
    (series_id key : ℕ) (cancelled : Option Bool) (fields : List _) (o : Option OccurrenceException)
    → Frames notes_of (put_exception series_id key cancelled fields o)
unfolding put_exception
Frames-put_exception series_id key cancelled fields none = search (frames_rules)
Frames-put_exception series_id key cancelled fields (some x) = search (frames_rules)

Frames-set_exception :
    (note : Note) (in_utc : Bool) (cancelled : Option Bool)
    → Frames notes_of (set_exception note in_utc cancelled)
unfolding set_exception set_exception_at
Frames-set_exception note in_utc cancelled = for_key note.series_id note.recurrence_key
  where
    for_key :
        (series_id key : Option ℕ)
        → Frames notes_of (set_exception_for note in_utc cancelled series_id key)
    for_key none key = search (frames_rules)
    for_key (some series_id) none = search (frames_rules)
    for_key (some series_id) (some key) = search (frames_rules, Frames-put_exception) depth 10

pub Frames-add_event :
    (type : String) (id version : ℕ) (series_id : Option ℕ)
    → Frames notes_of (add_event type id version series_id)
unfolding add_event
Frames-add_event type id version series_id = search (frames_rules)

-- The note that the request is about, as the client saw it.
pub record IsSeen (note_id : ℕ) (payload : NoteUpdate) (s : Db) (note : Note) : Type 0 where
  pub found : Member note s.notes
  pub same_id : note.id ≡ note_id
  pub version : note.version ≡ payload.expected_version
  pub in_place : is_some note.deleted_at ≡ false

-- Its row alone is written, with the payload's title, body, start and activity and the next version, which the
-- response shows.
pub record IsEdited (payload : NoteUpdate) (s : Db) (note : Note) (r : NoteResponse) (t : Db)
    : Type 0 where
  pub now : ℕ
  pub written :
      t.notes
      ≡ update_where
          (λ (n : Note). n.id == note.id)
          (λ _. record note {
            title = strip payload.fields.title;
            body = payload.fields.body;
            starts_at = payload.fields.starts_at;
            active = payload.fields.active;
            updated_at = now;
            version = note.version + 1;
          })
          s.notes
  pub version : r.version ≡ note.version + 1
  pub title : r.title ≡ strip payload.fields.title

Answers-spread_edit :
    (note note' : Note) (payload : NoteUpdate)
    → Answers notes_of
        (λ (r : NoteResponse). (r.version ≡ note'.version) × (r.title ≡ note'.title))
        (spread_edit note note' payload)
unfolding spread_edit note_response
Answers-spread_edit note note' payload =
    search
      (answers_rules, Frames-replace_tags, Frames-reconcile, Frames-set_exception, Frames-add_event)
      depth 20

edit_note-IsEdited :
    (note : Note) (payload : NoteUpdate) (s : Db)
    → IfReturns (IsEdited payload s note) (edit_note note payload s)
unfolding edit_note utcnow write_note
edit_note-IsEdited note payload s = elim (Bool-cases (is_empty (strip payload.fields.title))) [
  | inl blank ↦ rw blank tt
  | inr given ↦ rw given (
      let note' = edited payload.fields (s.clock s.reads) note in
      let t : Db = record s {
        reads = suc s.reads;
        notes = update_where (λ (n : Note). n.id == note.id) (λ _. note') s.notes;
      } in
      IfReturns-imp
        (λ r u. (u.notes ≡ t.notes) × ((r.version ≡ note'.version) × (r.title ≡ note'.title)))
        (IsEdited payload s note) (spread_edit note note' payload t)
        (λ r u k. record { now = s.clock s.reads; written = k.0; version = k.1.0; title = k.1.1 })
        ((Answers-spread_edit note note' payload).at t))
]

-- A row of the table with the identifier.
abbrev IsFound : ℕ → Db → Note → Db → Type 0
IsFound note_id s note t = (t.notes ≡ s.notes) × Member note s.notes × (note.id ≡ note_id)

require_note-IsFound :
    (note_id : ℕ) (s : Db) → IfReturns (IsFound note_id s) (require_note note_id s)
unfolding require_note
require_note-IsFound note_id s =
    IfReturns-read (IsFound note_id s)
      (one_or_none (
        select (λ (n : Note). (n.id == note_id) && is_none n.purged_at && is_none n.superseded_at)
          s.notes))
      _ s row
  where
    row :
        (o : Option Note)
        → one_or_none (
            select
              (λ (n : Note). (n.id == note_id) && is_none n.purged_at && is_none n.superseded_at)
              s.notes)
          ≡ ok o
        → IfReturns
            (IsFound note_id s)
            (found_or (raise (api_error 404 "not_found" "Note not found" [] none)) o s)
    row none e = tt
    row (some note) e =
        let (m, t) =
          one_or_none-found
            (λ (n : Note). (n.id == note_id) && is_none n.purged_at && is_none n.superseded_at) note
            s.notes e in
        (refl, m, ==→eq note.id note_id (ground (arith, t)))

locked-IsFound :
    (note_id : ℕ) (expected : Option ℕ) (s : Db)
    → IfReturns (IsFound note_id s) (locked_note_and_series note_id expected s)
unfolding locked_note_and_series
locked-IsFound note_id expected s =
    IfReturns-bind (IsFound note_id s) (IsFound note_id s) (require_note note_id) _ s
      (require_note-IsFound note_id s)
      (λ candidate t k.
        IfReturns-bind (IsFound note_id s) (λ _ u. u.notes ≡ t.notes)
          (lock_series candidate.series_id expected) _ t
          ((Frames-lock_series candidate.series_id expected).at t)
          (λ _ u e.
            IfReturns-imp (IsFound note_id u) (IsFound note_id s) (require_note note_id u)
              (λ note v f.
                let same : u.notes ≡ s.notes = e ∙ k.0 in
                (f.0 ∙ same, subst (λ ns. Member note ns) same f.1, f.2))
              (require_note-IsFound note_id u)))

-- Where `update_note` returns, the table had a note of that identifier in the version that the client expected
-- and outside the trash; of the notes its row alone is written, with the payload's stripped title, its body,
-- start and activity, and the next version, and the response shows that version and the stripped title.
pub update_note-IsEdited :
    (note_id : ℕ) (payload : NoteUpdate) (s : Db)
    → IfReturns
        (λ r t. (note : Note) × IsSeen note_id payload s note × IsEdited payload s note r t)
        (update_note note_id payload s)
unfolding update_note check_note_version check_in_place
update_note-IsEdited note_id payload s =
    IfReturns-bind
      (λ r t. (note : Note) × IsSeen note_id payload s note × IsEdited payload s note r t)
      (IsFound note_id s) (locked_note_and_series note_id payload.expected_series_version) _ s
      (locked-IsFound note_id payload.expected_series_version s)
      (λ note t f.
        IfReturns-bind _ (λ _ u. (u ≡ t) × (not (note.version == payload.expected_version) ≡ false))
          (check_note_version note payload.expected_version) _ t
          (raise_if-passed (not (note.version == payload.expected_version)) _ t)
          (λ _ u fresh. rw fresh.0 (
            IfReturns-bind _ (λ _ v. (v ≡ t) × (is_some note.deleted_at ≡ false))
              (check_in_place note) _ t (raise_if-passed (is_some note.deleted_at) _ t)
              (λ _ v there. rw there.0 (
                IfReturns-imp (IsEdited payload t note)
                  (λ r w. (n : Note) × IsSeen note_id payload s n × IsEdited payload s n r w)
                  (edit_note note payload t)
                  (λ r w k. (
                    note,
                    record {
                      found = f.1;
                      same_id = f.2;
                      version =
                          ==→eq note.version payload.expected_version (ground (arith, fresh.1));
                      in_place = there.1;
                    },
                    record {
                      now = k.now;
                      written = rw (sym f.0) k.written;
                      version = k.version;
                      title = k.title;
                    },
                  ))
                  (edit_note-IsEdited note payload t))))))
