-- ===== src/ComposeTarget/Tests.antt =====
-- A configuration whose parts agree.
use mad_devs_note_taker.Base.{ℕ, ◌≡◌, refl, List, some}
use mad_devs_note_taker.Base.Results.{ok}
use mad_devs_note_taker.Base.Text.{codes}
use mad_devs_note_taker.ComposeTarget.{
  Target, Url, Config, without_slashes, check_target, resolve_target,
}
use mad_devs_note_taker.ComposeTarget.Resolved.{IsTarget, resolve_target-IsTarget}

abbrev sample_url : Url
sample_url = record {
  path = codes "/notes";
  username = some (codes "app");
  hostname = some (codes "postgres");
}

abbrev sample_config : Config
sample_config = record {
  postgres_db = some (codes "notes");
  postgres_user = some (codes "app");
  database_url = some (codes "postgresql://app@postgres/notes");
}

abbrev sample_target : Target
sample_target = record { database = codes "notes"; user = codes "app" }

resolves :
    resolve_target (λ (u : List ℕ). sample_url) (λ (t : List ℕ). t) sample_config ≡ ok sample_target
unfolding resolve_target check_target without_slashes
resolves = refl

resolve_target-IsTarget_example :
    IsTarget (λ (u : List ℕ). sample_url) (λ (t : List ℕ). t) sample_config sample_target
resolve_target-IsTarget_example =
    resolve_target-IsTarget (λ (u : List ℕ). sample_url) (λ (t : List ℕ). t) sample_config
      sample_target resolves
