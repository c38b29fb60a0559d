-- ===== src/Storage.antt =====
-- src/services/storage.service.ts.
pub mod Slices
pub mod Batches
use messinger_backend.Prelude.{
  ℕ, zero, suc, ◌+◌, Bool, not, none, some, List, [], ◌∷◌, String, map, take, drop, ltb, length,
  Option,
}
use messinger_backend.Types.{Uuid}
use messinger_backend.Exceptions.{bad_request, request_failed}
use messinger_backend.Entities.{PendingUpload}
use messinger_backend.Orm.{Orm}
use messinger_backend.Packages.{Packages}
use messinger_backend.R2.{R2}
use messinger_backend.Store.{
  Store, Action, pure, gets, modify, generate, ◌>>=◌, ◌>>◌, throw_if, or_throw,
}
use messinger_backend.Repositories.{
  NewUpload, NewAttachment, create_uploads, find_by_id_and_user, delete_by_id, create_attachments,
}

-- `UploadDto['files'][number]`
pub record UploadFile : Type 0 where
  pub file_name : String
  pub content_type : String
  pub size : ℕ

-- `{ url, key }`
pub record PresignedUrl : Type 0 where
  pub url : ℕ
  pub key : ℕ

abbrev pub max_keys_per_batch : ℕ
max_keys_per_batch = 1000

module _ ⦃r : R2⦄ where
  unfoldable pub create_presigned_url : ℕ → String → PresignedUrl
  create_presigned_url key content_type = record { url = r.presign_put key content_type; key = key }

  unfoldable pub create_download_url : ℕ → String → String → ℕ
  create_download_url storage_key file_name content_type =
      r.presign_get storage_key content_type file_name

  unfoldable pub object_exists : ℕ → Action Bool
  object_exists key = do
    found ← gets (λ s. r.head_object key s.bucket)
    or_throw found request_failed

  -- `r2Client.send(new DeleteObjectsCommand(…))`
  unfoldable pub delete_batch : List ℕ → Action (Unit {0})
  delete_batch batch = do
    left ← gets (λ s. r.delete_objects batch s.bucket)
    bucket ← or_throw left request_failed
    modify (λ s. record s { bucket = bucket })

  -- The loop, with `i` the index and fuel for its rounds.
  unfoldable pub delete_from : ℕ → ℕ → List ℕ → Action (Unit {0})
  unfolding delete_batch
  delete_from zero i storage_keys = pure tt
  delete_from (suc fuel) i storage_keys =
      let rest = delete_from fuel (i + max_keys_per_batch) storage_keys in
      elim (ltb i (length storage_keys)) [
        | Bool.true ↦ delete_batch (take max_keys_per_batch (drop i storage_keys)) >> rest
        | Bool.false ↦ pure tt
      ]

  unfoldable pub delete_files : List ℕ → Action (Unit {0})
  unfolding delete_from
  delete_files [] = pure tt
  delete_files (key ∷ keys) = delete_from (length (key ∷ keys)) 0 (key ∷ keys)

module _ ⦃o : Orm⦄ ⦃k : Packages⦄ ⦃r : R2⦄ where
  -- The `uploads` of `prepareUploads`.
  unfoldable pub describe_uploads : Uuid → List UploadFile → Action (List NewUpload)
  describe_uploads user_id [] = pure []
  describe_uploads user_id (file ∷ files) = do
    id ← generate
    now ← gets (λ s. s.clock)
    rest ← describe_uploads user_id files
    pure (
        record {
          user_id = user_id;
          storage_key = r.storage_key user_id id;
          file_name = file.file_name;
          content_type = file.content_type;
          size = file.size;
          expires_at = k.add_hours now 24;
        }
        ∷ rest)

  unfoldable pub prepare_uploads :
      Uuid → List UploadFile → Action (List PresignedUrl × List PendingUpload)
  unfolding describe_uploads create_uploads create_presigned_url
  prepare_uploads user_id files = do
    uploads ← describe_uploads user_id files
    pending ← create_uploads uploads
    pure (map (λ u. create_presigned_url u.storage_key u.content_type) pending, pending)

module _ ⦃o : Orm⦄ where
  -- The last loop of `processMessageAttachments`.
  unfoldable pub delete_uploads : List PendingUpload → Action (Unit {0})
  unfolding delete_by_id
  delete_uploads [] = pure tt
  delete_uploads (u ∷ us) = delete_by_id u.id >> delete_uploads us

module _ ⦃o : Orm⦄ ⦃r : R2⦄ where
  -- The first loop of `processMessageAttachments`: the uploads that are behind the attachments.
  unfoldable pub check_attachments : Uuid → List Uuid → Action (List PendingUpload)
  unfolding find_by_id_and_user object_exists
  check_attachments user_id [] = pure []
  check_attachments user_id (id ∷ ids) = do
    found ← find_by_id_and_user id user_id
    upload ← or_throw found (bad_request "ATTACHMENT:INVALID_UPLOAD")
    now ← gets (λ s. s.clock)
    throw_if (ltb upload.expires_at now) (bad_request "ATTACHMENT:UPLOAD_EXPIRED")
    exists ← object_exists upload.storage_key
    throw_if (not exists) (bad_request "ATTACHMENT:UPLOAD_NOT_FOUND")
    uploads ← check_attachments user_id ids
    pure (upload ∷ uploads)

  abbrev pub attached : Uuid → PendingUpload → NewAttachment
  attached message_id u = record {
    storage_key = u.storage_key;
    file_name = u.file_name;
    content_type = u.content_type;
    size = u.size;
    message_id = message_id;
  }

  -- The attachments of the request are given by their ids; nothing else of them is read.
  unfoldable pub process_message_attachments : Uuid → Uuid → List Uuid → Action (Unit {0})
  unfolding check_attachments create_attachments delete_uploads
  process_message_attachments user_id message_id [] = pure tt
  process_message_attachments user_id message_id (id ∷ ids) = do
    uploads ← check_attachments user_id (id ∷ ids)
    create_attachments (map (attached message_id) uploads)
    delete_uploads uploads
