-- ===== src/Api/Tags/Names.antt =====
-- No two tags have the same normalized name.
use mad_devs_note_taker.Base.{
  ℕ, ◌≡◌, ◌≢◌, refl, Bool, false, ◌&&◌, not, ◌==◌, ==→eq, none, List, [], ◌∷◌, arith, All, All-imp,
  select, subst, sym, ◌∙◌, Option-cases, Bool-cases, inl, inr,
}
use mad_devs_note_taker.Base.Apart.{Apart, Apart-append}
use mad_devs_note_taker.Base.Results.{ok}
use mad_devs_note_taker.Base.Tables.{update_where, All-update_where}
use mad_devs_note_taker.Base.Text.{text_eq}
use mad_devs_note_taker.Models.{Db, Text, Tag}
use mad_devs_note_taker.Schemas.{TagCreate, TagUpdate}
use mad_devs_note_taker.Session.{one_or_none, uuid4, utcnow}
use mad_devs_note_taker.Session.Rules.{IfReturns, IfReturns-bind, IfReturns-read}
use mad_devs_note_taker.Notes.{add_event}
use mad_devs_note_taker.Api.Validation.{normalize_name, validate_color}
use mad_devs_note_taker.Api.Tags.{is_named, create_tag, update_tag, find_tag}

-- Two tags with different names.
abbrev pub OtherName : Tag → Tag → Type 0
OtherName a b = text_eq a.normalized_name b.normalized_name ≡ false

none_found :
    {A : Type 0} (p : A → Bool) (xs : List A)
    → one_or_none (select p xs) ≡ ok none
    → All (λ x. p x ≡ false) xs
unfolding one_or_none
none_found p [] h = tt
none_found {A = A} p (x ∷ xs) h = elim (Bool-cases (p x)) [
  | inl e ↦ absurd (some_found (select p xs) (rw e at h))
  | inr e ↦ (e, none_found p xs (rw e at h))
]
  where
    some_found : (ys : List A) → one_or_none (x ∷ ys) ≢ ok none
    some_found [] k = cc
    some_found (y ∷ ys) k = cc

-- Creating a tag, where it returns, keeps the normalized names of the tags distinct.
pub create_tag-OtherName :
    (casefold : Text → Text) (payload : TagCreate) (s : Db)
    → Apart OtherName s.tags
    → IfReturns (λ _ s'. Apart OtherName s'.tags) (create_tag casefold payload s)
unfolding create_tag uuid4 utcnow add_event
create_tag-OtherName casefold payload s h =
    IfReturns-read _ (normalize_name casefold payload.name) _ s (λ names q.
      IfReturns-read _ (one_or_none (select (is_named names.1) s.tags)) _ s (λ duplicate found.
        elim (Option-cases duplicate) [
          | inr (t, e) ↦ rw e tt
          | inl e ↦ rw e (
              IfReturns-read _ (validate_color payload.color) _ s (λ color r.
                Apart-append OtherName s.tags _ h
                  (none_found (is_named names.1) s.tags (rw e at found))))
        ]))

text_eq_comm : (a b : List ℕ) → text_eq a b ≡ text_eq b a
text_eq_comm [] [] = refl
text_eq_comm [] (y ∷ b) = refl
text_eq_comm (x ∷ a) [] = refl
text_eq_comm (x ∷ a) (y ∷ b) = ground (arith, text_eq_comm a b)

abbrev pub OtherTag : Tag → Tag → Type 0
OtherTag a b = a.id ≢ b.id

-- No tag but the one with the identifier has the name.
abbrev Unused : Text → ℕ → Tag → Type 0
Unused name k t = (is_named name t && not (t.id == k)) ≡ false

module _ (u : Tag) (k : ℕ) where
  abbrev put : List Tag → List Tag
  put = update_where (λ (t : Tag). t.id == k) (λ _. u)

  put_others :
      (ts : List Tag)
      → All (λ (t : Tag). t.id ≢ k) ts
      → All (Unused u.normalized_name k) ts
      → All (OtherName u) (put ts)
  put_others [] h f = tt
  put_others (t ∷ ts) h f =
      let e : (t.id == k) ≡ false = ground (arith, h.0) in
      let n : text_eq t.normalized_name u.normalized_name ≡ false = ground (arith, f.0, e) in
      rw e (text_eq_comm u.normalized_name t.normalized_name ∙ n, put_others ts h.1 f.1)

  put-OtherName :
      (ts : List Tag)
      → Apart OtherTag ts
      → Apart OtherName ts
      → All (Unused u.normalized_name k) ts
      → Apart OtherName (put ts)
  put-OtherName [] i h f = tt
  put-OtherName (t ∷ ts) i h f = elim (Bool-cases (t.id == k)) [
    | inl e ↦ rw e (
      put_others ts (All-imp (OtherTag t) _ (λ x o q. o (==→eq t.id k e ∙ sym q)) ts i.0) f.1,
      put-OtherName ts i.1 h.1 f.1,
    )
    | inr e ↦ rw e (
      All-update_where (OtherName t) (λ (x : Tag). x.id == k) (λ _. u)
          (λ _ _.
            let n : text_eq t.normalized_name u.normalized_name ≡ false = ground (arith, f.0, e) in
            n)
          ts h.0,
      put-OtherName ts i.1 h.1 f.1,
    )
  ]

find_tag-same : (id : ℕ) (s : Db) → IfReturns (λ _ s'. s' ≡ s) (find_tag id s)
unfolding find_tag
find_tag-same id s =
    IfReturns-read (λ _ s'. s' ≡ s) (one_or_none (select (λ (t : Tag). t.id == id) s.tags)) _ s
      (λ row q. elim (Option-cases row) [ inl e ↦ rw e tt | inr (tag, e) ↦ rw e refl ])

-- Renaming a tag, where it returns, keeps the normalized names of the tags distinct, where their identifiers are.
pub update_tag-OtherName :
    (casefold : Text → Text) (tag_id : ℕ) (payload : TagUpdate) (s : Db)
    → Apart OtherTag s.tags
    → Apart OtherName s.tags
    → IfReturns (λ _ s'. Apart OtherName s'.tags) (update_tag casefold tag_id payload s)
unfolding update_tag utcnow add_event uuid4
update_tag-OtherName casefold tag_id payload s i h =
    IfReturns-bind _ (λ _ s'. s' ≡ s) (find_tag tag_id) _ s (find_tag-same tag_id s)
      (λ tag s' same. elim (Bool-cases (not (tag.version == payload.expected_version))) [
        | inl v ↦ rw v tt
        | inr v ↦ rw v (
            IfReturns-read _ (normalize_name casefold payload.name) _ s' (λ names r.
              IfReturns-read _
                (one_or_none
                  (select (λ (t : Tag). is_named names.1 t && not (t.id == tag.id)) s'.tags))
                _ s'
                (λ duplicate found. elim (Option-cases duplicate) [
                  | inr (t, d) ↦ rw d tt
                  | inl d ↦ rw d (
                      IfReturns-read _ (validate_color payload.color) _ s' (λ color c.
                        put-OtherName _ tag.id s'.tags
                          (subst (λ (z : Db). Apart OtherTag z.tags) (sym same) i)
                          (subst (λ (z : Db). Apart OtherName z.tags) (sym same) h)
                          (none_found _ s'.tags (rw d at found))))
                ])))
      ])
