-- ===== src/Jobs.antt =====
-- src/jobs/delete-messages.job.ts, without its schedule and its log.
pub mod Cleanup
use messinger_backend.Prelude.{ℕ, ◌≡◌, Option, none, some, List, [], ◌∷◌, ◌++◌, map, filter, ◌==◌}
use messinger_backend.Types.{Uuid, Date}
use messinger_backend.Exceptions.{Result, ok, err}
use messinger_backend.Entities.{Message, MessageAttachment}
use messinger_backend.Orm.{Orm}
use messinger_backend.Packages.{Packages}
use messinger_backend.R2.{R2}
use messinger_backend.Store.{Store, Action, pure, gets, ◌>>=◌, ◌>>◌}
use messinger_backend.Repositories.{find_messages_to_cleanup, delete_messages_older_than}
use messinger_backend.Storage.{delete_files}

-- `try { … } catch (error) { … return; }`: what is known afterwards.
abbrev pub caught : {A : Type 0} → Result A × Store → Result (Option A) × Store
caught (ok a, s) = (ok (some a), s)
caught (err e, s) = (ok none, s)

abbrev pub attempt : {A : Type 0} → Action A → Action (Option A)
attempt work s = caught (work s)

abbrev pub max_message_age_days : ℕ
max_message_age_days = 2

module _ ⦃o : Orm⦄ where
  -- `messagesToCleanup.flatMap(…)` over the loaded relation.
  unfoldable pub storage_keys : List Message → List MessageAttachment → List ℕ
  storage_keys [] rows = []
  storage_keys (m ∷ ms) rows =
      map (λ a. a.storage_key) (o.find MessageAttachment (λ a. a.message_id == m.id) rows)
      ++ storage_keys ms rows

module _ ⦃o : Orm⦄ ⦃k : Packages⦄ ⦃r : R2⦄ where
  -- The work of the job once there are messages to clean up.
  unfoldable pub clean_up : List Uuid → List ℕ → Date → Action (Unit {0})
  unfolding delete_files delete_messages_older_than
  clean_up [] keys cutoff = pure tt
  clean_up (id ∷ ids) keys cutoff = do
    deleted ← attempt (delete_files keys)
    elim deleted [
      | none ↦ pure tt
      | some u ↦ attempt (delete_messages_older_than cutoff) >> pure tt
    ]

  unfoldable pub delete_messages_job : Action (Unit {0})
  unfolding find_messages_to_cleanup storage_keys clean_up
  delete_messages_job = do
    cutoff ← gets (λ s. k.sub_days s.clock max_message_age_days)
    fetched ← attempt (find_messages_to_cleanup cutoff)
    rows ← gets (λ s. s.attachments)
    elim fetched [
      | none ↦ pure tt
      | some messages ↦ clean_up (map (λ m. m.id) messages) (storage_keys messages rows) cutoff
    ]
