-- ===== src/Http/Files.antt =====
-- src/controllers/storage.controller.ts and push-subscription.controller.ts.
use messinger_backend.Prelude.{Option, none, some, ◌==◌}
use messinger_backend.Exceptions.{type_error}
use messinger_backend.Entities.{MessageAttachment}
use messinger_backend.Orm.{Orm}
use messinger_backend.Packages.{Packages}
use messinger_backend.R2.{R2}
use messinger_backend.Store.{Action, pure, throw, gets, ◌>>=◌, ◌>>◌}
use messinger_backend.Storage.{prepare_uploads, create_download_url}
use messinger_backend.Push.{subscribe_web, unsubscribe_web}
use messinger_backend.Http.Exchange.{
  Dto, upload_dto, download_dto, subscription_dto, endpoint_dto, no_body, message_body,
  uploads_body, url_body, Answer, Exchange, sends, the_user,
}

module _ ⦃o : Orm⦄ ⦃k : Packages⦄ ⦃r : R2⦄ where
  unfoldable pub process_upload : Exchange → Option Dto → Action Answer
  unfolding prepare_uploads
  process_upload x (some (upload_dto files)) = do
    user_id ← the_user x
    (urls, pending) ← prepare_uploads user_id files
    pure (sends 201 (uploads_body urls pending))
  process_upload x _ = throw type_error

module _ ⦃o : Orm⦄ ⦃r : R2⦄ where
  -- The user is not read.
  unfoldable pub download_attachment : Option Dto → Action Answer
  unfolding create_download_url
  download_attachment (some (download_dto id)) = do
    found ← gets (λ s. o.find_one MessageAttachment (λ a. a.id == id) s.attachments)
    elim found [
      | none ↦ pure (sends 404 (message_body "Attachment not found"))
      | some a ↦
          pure (sends 200 (url_body (create_download_url a.storage_key a.file_name a.content_type)))
    ]
  download_attachment _ = throw type_error

module _ ⦃o : Orm⦄ where
  unfoldable pub subscribe_web_controller : Exchange → Option Dto → Action Answer
  unfolding subscribe_web
  subscribe_web_controller x (some (subscription_dto dto)) = do
    user_id ← the_user x
    subscribe_web user_id dto
    pure (sends 204 no_body)
  subscribe_web_controller x _ = throw type_error

  unfoldable pub unsubscribe_web_controller : Option Dto → Action Answer
  unfolding unsubscribe_web
  unsubscribe_web_controller (some (endpoint_dto endpoint)) = do
    unsubscribe_web endpoint
    pure (sends 204 no_body)
  unsubscribe_web_controller _ = throw type_error
