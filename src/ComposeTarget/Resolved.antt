-- ===== src/ComposeTarget/Resolved.antt =====
-- What a resolved database target is.
use mad_devs_note_taker.Base.{
  ℕ, ◌≡◌, refl, Bool, true, false, ◌||◌, not, if◌then◌else◌, Option, some, none, List, [], ◌∷◌,
  ◌++◌, arith, any,
}
use mad_devs_note_taker.Base.Results.{ok, err}
use mad_devs_note_taker.Base.Text.{text_eq, is_empty}
use mad_devs_note_taker.ComposeTarget.{
  Target, Url, Config, wrong_host, target_mismatch, invalid_value, is_local_host, is_break,
  same_target, application, check_target, resolve_target,
}

text_eq→eq : (a b : List ℕ) → text_eq a b ≡ true → a ≡ b
text_eq→eq [] [] h = refl
text_eq→eq [] (y ∷ b) h = absurd (cc)
text_eq→eq (x ∷ a) [] h = absurd (cc)
text_eq→eq (x ∷ a) (y ∷ b) h = ground (arith, text_eq→eq a b)

-- The three checks have passed.
checks_passed :
    (host same bad : Bool) (t out : Target)
    → (if not host
        then err wrong_host
        else if not same
        then err target_mismatch
        else if bad
        then err invalid_value
        else ok t)
      ≡ ok out
    → (host ≡ true) × (same ≡ true) × (bad ≡ false) × (t ≡ out)
checks_passed false same bad t out h = absurd cc
checks_passed true false bad t out h = absurd cc
checks_passed true true true t out h = absurd cc
checks_passed true true false t out h = (refl, refl, refl, cc)

module _ (urlsplit : List ℕ → Url) (unquote : List ℕ → List ℕ) where
  -- The target that `target` is resolved to.
  pub record IsTarget (config : Config) (target : Target) : Type 0 where
    pub database : config.postgres_db ≡ some target.database
    pub user : config.postgres_user ≡ some target.user
    pub url :
        (u : List ℕ) × (config.database_url ≡ some u)
        × (is_local_host (urlsplit u).hostname ≡ true)
        × ((application urlsplit unquote u).database ≡ target.database)
        × ((application urlsplit unquote u).user ≡ target.user)
    pub nonempty : (is_empty target.database ≡ false) × (is_empty target.user ≡ false)
    pub single_line : any is_break (target.database ++ target.user) ≡ false

  target-IsTarget :
      (db us url : Option (List ℕ)) (out : Target)
      → resolve_target urlsplit unquote
          (record { postgres_db = db; postgres_user = us; database_url = url })
        ≡ ok out
      → IsTarget (record { postgres_db = db; postgres_user = us; database_url = url }) out
  unfolding resolve_target check_target
  target-IsTarget none us url out h = absurd cc
  target-IsTarget (some d) none url out h = absurd cc
  target-IsTarget (some d) (some w) none out h = absurd cc
  target-IsTarget (some d) (some w) (some u) out h =
      let (host, same, good, e) =
        checks_passed (is_local_host (urlsplit u).hostname)
          (same_target (application urlsplit unquote u) (record { database = d; user = w }))
          (is_empty d || is_empty w || any is_break (d ++ w)) (record { database = d; user = w })
          out h in
      rw (← e) (record {
        database = refl;
        user = refl;
        url = (
          u,
          refl,
          host,
          text_eq→eq _ d (ground (arith, same)),
          text_eq→eq _ w (ground (arith, same)),
        );
        nonempty = (ground (arith, good), ground (arith, good));
        single_line = ground (arith, good);
      })

  -- A resolved target is the one that the Compose configuration names for the service, its DATABASE_URL is
  -- on a local host and names the same database and user, both are non-empty, and neither has a line break
  -- or a tab.
  pub resolve_target-IsTarget :
      (config : Config) (out : Target)
      → resolve_target urlsplit unquote config ≡ ok out
      → IsTarget config out
  resolve_target-IsTarget config out h =
      target-IsTarget config.postgres_db config.postgres_user config.database_url out h
