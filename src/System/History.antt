-- ===== src/System/History.antt =====
-- What holds after any sequence of requests: the tables' constraints, the order of each delivery's states,
-- and that no delivery's message leaves twice.
pub mod Once
use mad_devs_note_taker.Base.{
  ℕ, ◌*◌, ◌-◌, ◌≡◌, ◌≢◌, ◌∙◌, refl, sym, Bool, true, false, if◌then◌else◌, ◌&&◌, all, Option, some,
  none, List, [], ◌∷◌, ◌++◌, All, All-imp, All-append, All-both, Some, Bool-cases, inl, inr, arith,
}
use mad_devs_note_taker.Base.Apart.{Apart, Apart-append, Evolves, Evolves-refl, Evolves-trans}
use mad_devs_note_taker.Base.Results.{Result, ok, err}
use mad_devs_note_taker.Models.{Db, ReminderDelivery, OutboxEvent, DeliveryState}
use mad_devs_note_taker.Email.{Email}
use mad_devs_note_taker.Deliveries.{Later, Later-refl, Later-trans, reaches_trans}
use mad_devs_note_taker.Session.{M, Error, ◌>>◌, pure, day}
use mad_devs_note_taker.Session.Rules.{IfReturns, IfReturns-bind, IfReturns-imp, IfReturns-both}
use mad_devs_note_taker.Storage.{IsStorable, IsStorableEvent, is_storable, is_storable_event}
use mad_devs_note_taker.Jobs.Maintenance.{is_delivery_of}
use mad_devs_note_taker.Jobs.Maintenance.{purge_trash}
use mad_devs_note_taker.System.Requests.{Request}
use mad_devs_note_taker.System.Execution.{
  Settings, System, silent, run, listed, accepts, exec, replay,
}
use mad_devs_note_taker.System.Keeps.{IsStored, Onward, Onward-refl, Keeps, Keeps-then, Keeps-pure}
use mad_devs_note_taker.System.Handlers.{
  Keeps-update_profile_settings, Keeps-create_tag, Keeps-update_tag, Keeps-delete_tag,
  Keeps-create_note, Keeps-update_note, Keeps-delete_note,
}
use mad_devs_note_taker.System.Series.{
  Keeps-create_series, Keeps-trash_series_portion, Keeps-restore_trash_action,
  Keeps-restore_series_portion, Keeps-restore_note,
}
use mad_devs_note_taker.System.Splitting.{Keeps-split_series}
use mad_devs_note_taker.System.Jobs.Claims.{Keeps-claim_due_batch}
use mad_devs_note_taker.System.Jobs.Sends.{Keeps-authorize_delivery}
use mad_devs_note_taker.System.Jobs.Outcomes.{Keeps-record_outcome, Keeps-classify_unknown}
use mad_devs_note_taker.System.Jobs.Upkeep.{Keeps-publish_batch, Keeps-maintain}
use mad_devs_note_taker.System.Jobs.Purge.{purged_ids, purge_trash-Onward}
use mad_devs_note_taker.System.Jobs.Refused.{started_or_none, purge_trash-refused}
use mad_devs_note_taker.System.Jobs.Handed.{
  IsHanded, HandsOut, has_started, Some-Evolves, authorize_delivery-HandsOut,
}

abbrev pub is_purge : Request → Bool
is_purge (Request.purge_trash now retention_days limit) = true
is_purge _ = false

silent-Keeps : {A : Type 0} (m : M A) → Keeps m → Keeps (silent m)
silent-Keeps m k = Keeps-then m (pure none) k (Keeps-pure none)

-- Every request but a purge keeps the constraints.
pub Keeps-run : (w : Settings) (r : Request) → is_purge r ≡ false → Keeps (run w r)
unfolding run
Keeps-run w (Request.update_profile_settings p) _ =
    silent-Keeps _ (Keeps-update_profile_settings w.defaults w.zones p)
Keeps-run w (Request.create_tag p) _ = silent-Keeps _ (Keeps-create_tag w.casefold p)
Keeps-run w (Request.update_tag id p) _ = silent-Keeps _ (Keeps-update_tag w.casefold id p)
Keeps-run w (Request.delete_tag id version) _ = silent-Keeps _ (Keeps-delete_tag id version)
Keeps-run w (Request.create_note p) _ = silent-Keeps _ (Keeps-create_note p)
Keeps-run w (Request.update_note id p) _ = silent-Keeps _ (Keeps-update_note id p)
Keeps-run w (Request.delete_note id version expected) _ =
    silent-Keeps _ (Keeps-delete_note id version expected)
Keeps-run w (Request.restore_note id p) _ = silent-Keeps _ (Keeps-restore_note id p)
Keeps-run w (Request.create_series p) _ =
    silent-Keeps _ (Keeps-create_series w.zones w.lower w.max_series_occurrences p)
Keeps-run w (Request.split_series id p) _ =
    silent-Keeps _ (Keeps-split_series w.zones w.lower w.max_series_occurrences id p)
Keeps-run w (Request.trash_series_portion id p) _ = silent-Keeps _ (Keeps-trash_series_portion id p)
Keeps-run w (Request.restore_trash_action id version) _ =
    silent-Keeps _ (Keeps-restore_trash_action w.lower id version)
Keeps-run w (Request.restore_series_portion id p) _ =
    silent-Keeps _ (Keeps-restore_series_portion w.lower id p)
Keeps-run w (Request.claim_due_batch locked now grace lease limit) _ =
    silent-Keeps _ (Keeps-claim_due_batch locked now grace lease limit)
Keeps-run w (Request.authorize_delivery id token now grace) _ =
    Keeps-authorize_delivery id token now grace w.defaults.email
Keeps-run w (Request.record_outcome id email outcome) _ =
    silent-Keeps _ (Keeps-record_outcome email outcome id)
Keeps-run w (Request.classify_unknown locked now older limit) _ =
    silent-Keeps _ (Keeps-classify_unknown locked now older limit)
Keeps-run w (Request.publish_batch locked publish now limit) _ =
    silent-Keeps _ (Keeps-publish_batch locked publish now limit)
Keeps-run w (Request.maintain locked now) _ = silent-Keeps _ (Keeps-maintain locked now)
Keeps-run w (Request.purge_trash now retention_days limit) e = absurd cc

all_storable : (ds : List ReminderDelivery) → All IsStorable ds → all is_storable ds ≡ true
all_storable [] h = refl
all_storable (d ∷ ds) h = let e : is_storable d ≡ true = h.0.accepted in rw e (all_storable ds h.1)

all_storable_events :
    (es : List OutboxEvent) → All IsStorableEvent es → all is_storable_event es ≡ true
all_storable_events [] h = refl
all_storable_events (e ∷ es) h =
    let q : is_storable_event e ≡ true = h.0.accepted in rw q (all_storable_events es h.1)

stored-accepts : (s : Db) → IsStored s → accepts s ≡ true
stored-accepts s h =
    ground (
      arith,
      all_storable s.deliveries h.deliveries.rows,
      all_storable_events s.outbox h.events.rows,
    )

-- From tables with distinct keys whose rows pass the checks, a request other than a purge that returns leaves
-- rows that the checks accept.
pub run-accepts :
    (w : Settings) (r : Request) (s : Db)
    → is_purge r ≡ false
    → IsStored s
    → IfReturns (λ _ t. accepts t ≡ true) (run w r s)
run-accepts w r s p h =
    IfReturns-imp (λ _ t. Onward s t) (λ _ t. accepts t ≡ true) (run w r s)
      (λ _ t o. stored-accepts t o.stored) ((Keeps-run w r p).at s h)
