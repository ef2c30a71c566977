-- ===== src/ComposeTarget.antt =====
-- The database target of the deployment: `resolve_target` of scripts/compose_db_target.py.
--
-- `urlsplit` and `unquote` are parameters; what they find in DATABASE_URL is a `Url`.
pub mod Resolved
mod Tests
use mad_devs_note_taker.Base.{
  ℕ, Bool, true, false, ◌&&◌, ◌||◌, not, if◌then◌else◌, ◌==◌, Option, some, none, List, [], ◌∷◌,
  ◌++◌, any,
}
use mad_devs_note_taker.Base.Results.{Result, ok, err}
use mad_devs_note_taker.Base.Text.{codes, text_eq, is_empty}

abbrev Text : Type 0
Text = List ℕ

pub record Target : Type 0 where
  pub database : Text
  pub user : Text

pub record Url : Type 0 where
  pub path : Text
  pub username : Option Text
  pub hostname : Option Text

-- The values of the Compose configuration, `none` for a missing key.
pub record Config : Type 0 where
  pub postgres_db : Option Text
  pub postgres_user : Option Text
  pub database_url : Option Text

pub data TargetError : Type 0 where
  missing_configuration wrong_host target_mismatch invalid_value : TargetError

-- str.lstrip("/")
unfoldable pub without_slashes : Text → Text
without_slashes [] = []
without_slashes (c ∷ s) = let rest = without_slashes s in if c == 47 then rest else c ∷ s

abbrev pub is_local_host : Option Text → Bool
is_local_host none = false
is_local_host (some h) =
    text_eq h (codes "postgres") || text_eq h (codes "localhost") || text_eq h (codes "127.0.0.1")

abbrev pub text_or_empty : Option Text → Text
text_or_empty none = []
text_or_empty (some t) = t

-- "\r", "\n" or "\t"
abbrev pub is_break : ℕ → Bool
is_break c = (c == 13) || (c == 10) || (c == 9)

abbrev pub same_target : Target → Target → Bool
same_target a b = text_eq a.database b.database && text_eq a.user b.user

module _ (urlsplit : Text → Url) (unquote : Text → Text) where
  abbrev pub application : Text → Target
  application url = record {
    database = unquote (without_slashes (urlsplit url).path);
    user = unquote (text_or_empty (urlsplit url).username);
  }

  unfoldable pub check_target : Target → Text → Result TargetError Target
  check_target target url =
      if not (is_local_host (urlsplit url).hostname)
      then err wrong_host
      else if not (same_target (application url) target)
      then err target_mismatch
      else if is_empty target.database
          || is_empty target.user
          || any is_break (target.database ++ target.user)
      then err invalid_value
      else ok target

  unfoldable pub resolve_target : Config → Result TargetError Target
  unfolding check_target
  resolve_target config = elim config.postgres_db [
    | none ↦ err missing_configuration
    | some database ↦ elim config.postgres_user [
      | none ↦ err missing_configuration
      | some user ↦ elim config.database_url [
        | none ↦ err missing_configuration
        | some url ↦ check_target (record { database = database; user = user }) url
      ]
    ]
  ]

-- The comparison of `validate_running_container`, given the environment of the running container.
unfoldable pub check_running : Target → Option Text → Option Text → Result TargetError (Unit {0})
check_running target database user =
    if not
      (same_target (record { database = text_or_empty database; user = text_or_empty user }) target)
    then err target_mismatch
    else ok tt
