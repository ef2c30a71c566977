-- ===== src/Notes/TagSet.antt =====
-- `replace_tags` by the sets that the links stand for.
use mad_devs_note_taker.Base.{
  ℕ, ap, ◌≡◌, refl, ◌∙◌, Bool, true, false, not, ◌&&◌, ◌||◌, ◌==◌, ==→eq, List, [], ◌∷◌, ◌++◌, map,
  any, contains, select, Bool-cases, inl, inr, arith,
}
use mad_devs_note_taker.Models.{Db, Note, NoteTag}
use mad_devs_note_taker.Schemas.{distinct}
use mad_devs_note_taker.Session.Rules.{IfReturns, IfReturns-bind}
use mad_devs_note_taker.Session.Frames.{Frames-raise_if}
use mad_devs_note_taker.Notes.{validate_tags, replace_tags, tag_links}

flip : (a b : ℕ) → (a == b) ≡ false → (b == a) ≡ false
flip a b h = ground (arith, h)

==_sym : (a b : ℕ) → (a == b) ≡ (b == a)
==_sym a b = ground arith

-- Whether a note has a tag.
abbrev pub is_link : ℕ → ℕ → NoteTag → Bool
is_link note_id tag_id l = (l.note_id == note_id) && (l.tag_id == tag_id)

abbrev pub has_tag : ℕ → ℕ → List NoteTag → Bool
has_tag note_id tag_id links = any (is_link note_id tag_id) links

any-append :
    {A : Type 0} (p : A → Bool) (xs ys : List A) → any p (xs ++ ys) ≡ (any p xs || any p ys)
any-append p [] ys = refl
any-append p (x ∷ xs) ys = ground (arith, any-append p xs ys)

contains-distinct : (k : ℕ) (ks : List ℕ) → contains k (distinct ks) ≡ contains k ks
unfolding distinct
contains-distinct k [] = refl
contains-distinct k (x ∷ xs) =
    let rest = contains-distinct k xs in
    elim (Bool-cases (contains x xs)) [
      | inr f ↦ rw (f, rest) refl
      | inl t ↦
          rw (t, rest)
            (elim (Bool-cases (k == x)) [
              | inr other ↦ rw other refl
              | inl same ↦ let q : contains k xs ≡ true = rw (==→eq k x same) t in rw (same, q) refl
            ])
    ]

module _ (note_id tag_id : ℕ) where
  -- The tags of a note, as a list.
  contains-tags :
      (links : List NoteTag)
      → contains tag_id
          (map (λ (l : NoteTag). l.tag_id) (select (λ (l : NoteTag). l.note_id == note_id) links))
        ≡ has_tag note_id tag_id links
  contains-tags [] = refl
  contains-tags (l ∷ links) =
      let rest = contains-tags links in
      elim (Bool-cases (l.note_id == note_id)) [
        | inl t ↦
            rw (t, rest) (ap (λ b. b || has_tag note_id tag_id links) (==_sym tag_id l.tag_id))
        | inr f ↦ rw (f, rest) refl
      ]

  -- Links that are added.
  has_tag-tag_links :
      (ids : List ℕ) → has_tag note_id tag_id (tag_links note_id ids) ≡ contains tag_id ids
  has_tag-tag_links [] = refl
  has_tag-tag_links (i ∷ ids) = ground (arith, has_tag-tag_links ids)

  has_tag-others :
      (other : ℕ) (ids : List ℕ)
      → (other == note_id) ≡ false
      → has_tag note_id tag_id (tag_links other ids) ≡ false
  has_tag-others other [] h = refl
  has_tag-others other (i ∷ ids) h = ground (arith, h, has_tag-others other ids h)

contains-select :
    (k : ℕ) (p : ℕ → Bool) (ks : List ℕ) → contains k (select p ks) ≡ (contains k ks && p k)
contains-select k p [] = refl
contains-select k p (x ∷ ks) =
    let rest = contains-select k p ks in
    elim (Bool-cases (p x)) [
      | inl t ↦ rw t (elim (Bool-cases (k == x)) [
        | inl same ↦ let q : p k ≡ true = rw (==→eq k x same) t in rw (same, q) refl
        | inr other ↦ rw (other, rest) refl
      ])
      | inr f ↦
          rw (f, rest)
            (elim (Bool-cases (k == x)) [
              | inl same ↦
                  let q : p k ≡ false = rw (==→eq k x same) f in
                  rw (same, q) (and_false (contains k ks))
              | inr other ↦ rw other refl
            ])
    ]
  where
    and_false : (b : Bool) → (b && false) ≡ false
    and_false b = ground arith

-- A selection that is the same for all elements that are looked for.
any-select :
    {A : Type 0} (p q : A → Bool) (c : Bool)
    → ((x : A) → p x ≡ true → q x ≡ c)
    → (xs : List A) → any p (select q xs) ≡ (any p xs && c)
any-select p q c agree [] = refl
any-select p q c agree (x ∷ xs) =
    let rest = any-select p q c agree xs in
    elim (Bool-cases (p x)) [
      | inl t ↦
          let e = agree x t in
          elim (Bool-cases (q x)) [
            | inl a ↦ rw a (ground (arith, rest, t, e, a))
            | inr a ↦ rw a (ground (arith, rest, t, e, a))
          ]
      | inr f ↦ elim (Bool-cases (q x)) [
        | inl a ↦ rw a (ground (arith, rest, f))
        | inr a ↦ rw a (ground (arith, rest, f))
      ]
    ]

-- The links that stay.
abbrev pub stays : ℕ → List ℕ → List ℕ → NoteTag → Bool
stays n existing desired l =
    not ((l.note_id == n) && contains l.tag_id existing && not (contains l.tag_id desired))

stays-at :
    (n k : ℕ) (existing desired : List ℕ) (l : NoteTag)
    → is_link n k l ≡ true
    → stays n existing desired l ≡ not (contains k existing && not (contains k desired))
stays-at n k existing desired l h =
    let t : (l.note_id == n) ≡ true = ground (arith, h) in
    let u : l.tag_id ≡ k = ==→eq l.tag_id k (ground (arith, h)) in rw (t, u) refl

stays-other :
    (n m k : ℕ) (existing desired : List ℕ) (l : NoteTag)
    → (m == n) ≡ false
    → is_link m k l ≡ true
    → stays n existing desired l ≡ true
stays-other n m k existing desired l o h =
    let e : l.note_id ≡ m = ==→eq l.note_id m (ground (arith, h)) in rw (e, o) refl

validate_tags-same :
    (tag_ids : List ℕ) (s : Db) → IfReturns (λ _ t. t ≡ s) (validate_tags tag_ids s)
unfolding validate_tags
validate_tags-same tag_ids s = (Frames-raise_if {view = λ t. t} _ _).at s

-- What the tags of the notes are after the call.
pub record IsReplaced (note : Note) (tag_ids : List ℕ) (s t : Db) : Type 0 where
  pub desired : (k : ℕ) → has_tag note.id k t.note_tags ≡ contains k tag_ids
  pub others :
      (m k : ℕ) → (m == note.id) ≡ false → has_tag m k t.note_tags ≡ has_tag m k s.note_tags

-- Where `replace_tags` returns, the tags of the note are those that were asked for, and those of the other
-- notes are as before.
pub replace_tags-IsReplaced :
    (note : Note) (tag_ids : List ℕ) (s : Db)
    → IfReturns (λ _ t. IsReplaced note tag_ids s t) (replace_tags note tag_ids s)
unfolding replace_tags
replace_tags-IsReplaced note tag_ids s =
    IfReturns-bind (λ _ t. IsReplaced note tag_ids s t) (λ _ t. t ≡ s) (validate_tags tag_ids) _ s
      (validate_tags-same tag_ids s) (λ _ t e. rw e (record { desired = desired; others = others }))
  where
    existing : List ℕ
    existing =
        map (λ (l : NoteTag). l.tag_id) (select (λ (l : NoteTag). l.note_id == note.id) s.note_tags)

    kept : List NoteTag
    kept = select (stays note.id existing tag_ids) s.note_tags

    added : List ℕ
    added = select (λ (t : ℕ). not (contains t existing)) (distinct tag_ids)

    desired : (k : ℕ) → has_tag note.id k (kept ++ tag_links note.id added) ≡ contains k tag_ids
    desired k =
        let e = contains-tags note.id k s.note_tags in
        let f =
          any-select (is_link note.id k) (stays note.id existing tag_ids)
            (not (contains k existing && not (contains k tag_ids)))
            (stays-at note.id k existing tag_ids) s.note_tags in
        let g = has_tag-tag_links note.id k added in
        let h = contains-select k (λ (t : ℕ). not (contains t existing)) (distinct tag_ids) in
        any-append (is_link note.id k) kept (tag_links note.id added)
        ∙ ground (arith, e, f, g, h, contains-distinct k tag_ids)

    others :
        (m k : ℕ)
        → (m == note.id) ≡ false
        → has_tag m k (kept ++ tag_links note.id added) ≡ has_tag m k s.note_tags
    others m k o =
        let f =
          any-select (is_link m k) (stays note.id existing tag_ids) true
            (λ l. stays-other note.id m k existing tag_ids l o) s.note_tags in
        let g = has_tag-others m k note.id added (flip m note.id o) in
        any-append (is_link m k) kept (tag_links note.id added) ∙ ground (arith, f, g)
