-- ===== src/Api/Tags/Tests.antt =====
-- Two tags, a third that is created, and one that is renamed.
use mad_devs_note_taker.Base.{[], ◌∷◌, refl, arith}
use mad_devs_note_taker.Base.Apart.{Apart}
use mad_devs_note_taker.Base.Text.{codes}
use mad_devs_note_taker.Models.{Db, Tag, Text}
use mad_devs_note_taker.Schemas.{TagCreate, TagUpdate}
use mad_devs_note_taker.Session.Rules.{IfReturns}
use mad_devs_note_taker.Fixtures.{sample_db}
use mad_devs_note_taker.Api.Tags.{create_tag, update_tag}
use mad_devs_note_taker.Api.Tags.Names.{OtherName, create_tag-OtherName, update_tag-OtherName}

abbrev same_case : Text → Text
same_case t = t

abbrev work : Tag
work = record {
  id = 1;
  name = codes "work";
  normalized_name = codes "work";
  color = codes "#aabbcc";
  updated_at = 0;
  version = 1;
}

abbrev home : Tag
home = record work { id = 2; name = codes "home"; normalized_name = codes "home" }

abbrev tags_db : Db
tags_db = record sample_db { tags = work ∷ home ∷ [] }

abbrev new_tag : TagCreate
new_tag = record { name = codes "shop"; color = codes "#112233" }

abbrev renamed : TagUpdate
renamed = record { name = codes "job"; color = codes "#112233"; expected_version = 1 }

create_tag-OtherName_example :
    IfReturns (λ _ (s : Db). Apart OtherName s.tags) (create_tag same_case new_tag tags_db)
create_tag-OtherName_example =
    create_tag-OtherName same_case new_tag tags_db ((refl, tt), ((tt), tt))

update_tag-OtherName_example :
    IfReturns (λ _ (s : Db). Apart OtherName s.tags) (update_tag same_case 1 renamed tags_db)
update_tag-OtherName_example =
    update_tag-OtherName same_case 1 renamed tags_db
      (((λ e. absurd (omega (arith, e))), tt), (tt, tt)) ((refl, tt), (tt, tt))
