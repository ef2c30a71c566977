-- ===== src/Notes/Tests.antt =====
-- A note with one tag, which two others replace.
use mad_devs_note_taker.Base.{[], ◌∷◌}
use mad_devs_note_taker.Base.Text.{codes}
use mad_devs_note_taker.Models.{Db, Tag}
use mad_devs_note_taker.Session.Rules.{IfReturns}
use mad_devs_note_taker.Fixtures.{sample_note, sample_db}
use mad_devs_note_taker.Notes.{replace_tags}
use mad_devs_note_taker.Notes.TagSet.{IsReplaced, replace_tags-IsReplaced}

abbrev work : Tag
work = record {
  id = 7;
  name = codes "work";
  normalized_name = codes "work";
  color = codes "#aabbcc";
  updated_at = 0;
  version = 1;
}

abbrev tagged_db : Db
tagged_db = record sample_db {
  tags = work ∷ record work { id = 8 } ∷ record work { id = 9 } ∷ [];
  note_tags = record { note_id = 1; tag_id = 7 } ∷ record { note_id = 2; tag_id = 7 } ∷ [];
}

replace_tags-IsReplaced_example :
    IfReturns
      (λ _ t. IsReplaced sample_note (8 ∷ 9 ∷ []) tagged_db t)
      (replace_tags sample_note (8 ∷ 9 ∷ []) tagged_db)
replace_tags-IsReplaced_example = replace_tags-IsReplaced sample_note (8 ∷ 9 ∷ []) tagged_db
