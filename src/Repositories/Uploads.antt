-- ===== src/Repositories/Uploads.antt =====
-- src/repositories/pending-upload.repository.ts and message-attachment.repository.ts. `Promise.all`
-- saves the rows one after the other.
use messinger_backend.Prelude.{ℕ, Bool, ◌&&◌, Option, List, [], ◌∷◌, ◌==◌, ltb, String}
use messinger_backend.Types.{Uuid, Date}
use messinger_backend.Entities.{PendingUpload, MessageAttachment}
use messinger_backend.Orm.{Orm}
use messinger_backend.Store.{Action, pure, gets, modify, generate, ◌>>=◌, ◌>>◌, or_fail}
use messinger_backend.Store.Constraints.{admits_upload, admits_attachment}

-- `Partial<PendingUpload>`
pub record NewUpload : Type 0 where
  pub user_id : Uuid
  pub storage_key : ℕ
  pub file_name : String
  pub content_type : String
  pub size : ℕ
  pub expires_at : Date

-- `Partial<MessageAttachment>`
pub record NewAttachment : Type 0 where
  pub storage_key : ℕ
  pub file_name : String
  pub content_type : String
  pub size : ℕ
  pub message_id : Uuid

abbrev pub new_upload : Uuid → Date → NewUpload → PendingUpload
new_upload id now u = record {
  id = id;
  user_id = u.user_id;
  storage_key = u.storage_key;
  file_name = u.file_name;
  content_type = u.content_type;
  size = u.size;
  expires_at = u.expires_at;
  created_at = now;
}

abbrev pub new_attachment : Uuid → Date → NewAttachment → MessageAttachment
new_attachment id now a = record {
  id = id;
  message_id = a.message_id;
  storage_key = a.storage_key;
  file_name = a.file_name;
  content_type = a.content_type;
  size = a.size;
  created_at = now;
}

-- `{ id, userId }`
abbrev pub own_upload : Uuid → Uuid → PendingUpload → Bool
own_upload id user_id u = u.id == id && u.user_id == user_id

module _ ⦃o : Orm⦄ where
  unfoldable pub create_upload : NewUpload → Action PendingUpload
  create_upload u = do
    id ← generate
    row ← gets (λ s. new_upload id s.clock u)
    inserted ← gets (λ s. o.insert _ (admits_upload s.users) (row ∷ []) s.uploads)
    table ← or_fail inserted
    modify (λ s. record s { uploads = table })
    pure row

  unfoldable pub create_uploads : List NewUpload → Action (List PendingUpload)
  unfolding create_upload
  create_uploads [] = pure []
  create_uploads (u ∷ us) = do row ← create_upload u; rows ← create_uploads us; pure (row ∷ rows)

  unfoldable pub find_by_id_and_user : Uuid → Uuid → Action (Option PendingUpload)
  find_by_id_and_user id user_id = gets (λ s. o.find_one _ (own_upload id user_id) s.uploads)

  unfoldable pub delete_by_id : Uuid → Action (Unit {0})
  delete_by_id id = modify (λ s. record s { uploads = o.delete _ (λ u. u.id == id) s.uploads })

  unfoldable pub delete_expired : Action (Unit {0})
  delete_expired =
      modify (λ s. record s { uploads = o.delete _ (λ u. ltb u.expires_at s.clock) s.uploads })

  -- The rows that are inserted, with their generated keys.
  unfoldable pub attachment_rows : List NewAttachment → Action (List MessageAttachment)
  attachment_rows [] = pure []
  attachment_rows (a ∷ as_) = do
    id ← generate
    row ← gets (λ s. new_attachment id s.clock a)
    rows ← attachment_rows as_
    pure (row ∷ rows)

  unfoldable pub create_attachments : List NewAttachment → Action (Unit {0})
  unfolding attachment_rows
  create_attachments [] = pure tt
  create_attachments (a ∷ as_) = do
    rows ← attachment_rows (a ∷ as_)
    inserted ← gets (λ s. o.insert _ (admits_attachment s.messages) rows s.attachments)
    table ← or_fail inserted
    modify (λ s. record s { attachments = table })

  unfoldable pub find_by_message_id : Uuid → Action (List MessageAttachment)
  find_by_message_id message_id =
      gets (λ s. o.find _ (λ a. a.message_id == message_id) s.attachments)
