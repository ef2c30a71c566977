-- ===== src/Api/Validation.antt =====
-- Checks of request values: `validate_email` and `validate_timezone` of backend/app/domain/common.py,
-- `_validate_color` and `_normalize_name` of backend/app/api/router.py.
--
-- `str.casefold` is the argument `casefold`, the time zone data base the argument `zones`.
use mad_devs_note_taker.Base.{
  ℕ, ◌+◌, Bool, false, ◌&&◌, ◌||◌, not, if◌then◌else◌, ltb, leb, ◌==◌, none, [], ◌∷◌, length, all,
  any, map, String,
}
use mad_devs_note_taker.Base.Results.{Result, ok, err}
use mad_devs_note_taker.Base.Text.{strip, is_space, is_empty, partition}
use mad_devs_note_taker.Models.{Text}
use mad_devs_note_taker.Session.{Error, api_error}
use mad_devs_note_taker.Recurrence.{Zones}

-- A dot with something behind it.
unfoldable pub dot_inside : Text → Bool
dot_inside [] = false
dot_inside (c ∷ s) = ((c == b'.') && not (is_empty s)) || dot_inside s

-- `[^@\s]+\.[^@\s]+`
abbrev pub is_domain : Text → Bool
is_domain [] = false
is_domain (c ∷ s) = dot_inside s && not (any (λ (x : ℕ). (x == b'@') || is_space x) (c ∷ s))

-- `^[^@\s]+@[^@\s]+\.[^@\s]+$`
unfoldable pub is_email : Text → Bool
unfolding dot_inside
is_email value =
    let (local, found, domain) = partition b'@' value in
    found && not (is_empty local) && not (any is_space local) && is_domain domain

unfoldable pub validate_email : Text → Result Error Text
unfolding is_email
validate_email value =
    if ltb 320 (length value) || not (is_email value)
    then err (api_error 422 "validation_error" "Invalid settings" ("email" ∷ []) none)
    else ok value

unfoldable pub validate_timezone : Zones → String → Result Error String
validate_timezone zones value =
    if zones.zone_info value
    then ok value
    else err (api_error 422 "validation_error" "Invalid settings" ("timezone" ∷ []) none)

abbrev pub is_hex : ℕ → Bool
is_hex c = (leb b'0' c && leb c b'9') || (leb b'a' c && leb c b'f') || (leb b'A' c && leb c b'F')

-- `^#[0-9a-fA-F]{6}$`
unfoldable pub is_color : Text → Bool
is_color [] = false
is_color (c ∷ s) = (c == b'#') && (length s == 6) && all is_hex s

abbrev pub lower_ascii : ℕ → ℕ
lower_ascii c = if leb b'A' c && leb c b'Z' then c + 32 else c

unfoldable pub validate_color : Text → Result Error Text
unfolding is_color
validate_color color =
    if is_color color
    then ok (map lower_ascii color)
    else err (api_error 422 "validation_error" "Invalid tag" ("color" ∷ []) none)

unfoldable pub normalize_name : (Text → Text) → Text → Result Error (Text × Text)
normalize_name casefold name =
    if is_empty (strip name)
    then err (api_error 422 "validation_error" "Invalid tag" ("name" ∷ []) none)
    else ok (strip name, casefold (strip name))
