-- ===== src/Tests/Storage.antt =====
-- The theorems on attachments, files, the cleanup and the deletion of a user, on the small database with one old message.
use messinger_backend.Prelude.{
  ◌≡◌, refl, List, map, ◌++◌, true, false, not, ◌&&◌, some, none, arith, [], ◌∷◌, filter, any,
  includes, ltb, ◌==◌,
}
use messinger_backend.Exceptions.{Result, ok, IsOk}
use messinger_backend.Entities.{Message, MessageAttachment, PendingUpload}
use messinger_backend.Orm.{first_orm, first_orm-IsOrm}
use messinger_backend.Packages.{plain_packages}
use messinger_backend.R2.{R2, IsThorough, plain_r2, plain_r2-IsR2, plain_r2-IsUp, without}
use messinger_backend.Store.{Store}
use messinger_backend.Repositories.{
  find_by_id_and_user, delete_by_id, create_attachments, attachment_rows, find_messages_to_cleanup,
}
use messinger_backend.Storage.{
  delete_files, delete_from, delete_batch, process_message_attachments, check_attachments,
  object_exists, delete_uploads,
}
use messinger_backend.Storage.Batches.{delete_files_lem}
use messinger_backend.Messages.Attachments.{
  Checked, columns, upload_columns, process_message_attachments_lem,
}
use messinger_backend.Jobs.{delete_messages_job, storage_keys, clean_up}
use messinger_backend.Jobs.Cleanup.{
  cutoff_at, is_old_file, delete_messages_job_lem, delete_messages_job-keeps,
}
use messinger_backend.Store.Constraints.{user_exists, conversation_exists}
use messinger_backend.Administration.{delete_user, sent_by}
use messinger_backend.Administration.Removal.{is_last, is_forgotten, delete_user_lem}
use messinger_backend.Tests.Data.{store}

abbrev old_message : Message
old_message = record {
  id = 80;
  conversation_id = 1;
  sender_id = some 10;
  ciphered_content = "hi";
  iv = "iv";
  auth_tag = "tag";
  created_at = 0;
}

abbrev attachment : MessageAttachment
attachment = record {
  id = 85;
  message_id = 80;
  storage_key = 7;
  file_name = "a";
  content_type = "b";
  size = 1;
  created_at = 0;
}

abbrev upload : PendingUpload
upload = record {
  id = 86;
  user_id = 10;
  storage_key = 8;
  file_name = "a";
  content_type = "b";
  size = 1;
  expires_at = 100;
  created_at = 0;
}

abbrev files : Store
files = record store {
  messages = old_message ∷ record old_message { id = 81; created_at = 200000000 } ∷ [];
  attachments = attachment ∷ [];
  uploads = upload ∷ [];
  bucket = 7 ∷ 8 ∷ 9 ∷ [];
}

-- Three days later.
abbrev later : Store
later = record files { clock = 259200000 }

delete_files_lem_example :
    delete_files ⦃r = plain_r2⦄ (7 ∷ 9 ∷ []) files
    ≡ (ok tt, record files { bucket = without (7 ∷ 9 ∷ []) files.bucket })
delete_files_lem_example = delete_files_lem ⦃r = plain_r2⦄ plain_r2-IsUp (7 ∷ 9 ∷ []) files

processed :
    IsOk (process_message_attachments ⦃o = first_orm⦄ ⦃r = plain_r2⦄ 10 81 (86 ∷ []) files).0
unfolding process_message_attachments check_attachments find_by_id_and_user object_exists
    create_attachments attachment_rows delete_uploads delete_by_id
processed = tt

process_message_attachments_lem_example :
    let after =
      (process_message_attachments ⦃o = first_orm⦄ ⦃r = plain_r2⦄ 10 81 (86 ∷ []) files).1 in
    ((us : List PendingUpload) × Checked 10 (86 ∷ []) files us
      × (map columns after.attachments
          ≡ map columns files.attachments ++ map (upload_columns 81) us))
    × (any (λ v. v.id == 86) after.uploads ≡ false)
process_message_attachments_lem_example =
    process_message_attachments_lem ⦃o = first_orm⦄ ⦃r = plain_r2⦄ first_orm-IsOrm plain_r2-IsR2 10
      81 (86 ∷ []) files 86 processed refl

delete_messages_job_lem_example :
    ((delete_messages_job ⦃o = first_orm⦄ ⦃k = plain_packages⦄ ⦃r = plain_r2⦄ later).1.messages
      ≡ filter
          (λ m. not (
            ltb m.created_at (cutoff_at ⦃o = first_orm⦄ ⦃k = plain_packages⦄ ⦃r = plain_r2⦄ later)))
          later.messages)
    × (includes
          (delete_messages_job ⦃o = first_orm⦄ ⦃k = plain_packages⦄ ⦃r = plain_r2⦄ later).1.bucket
          7
        ≡ (not (
              is_old_file
                (cutoff_at ⦃o = first_orm⦄ ⦃k = plain_packages⦄ ⦃r = plain_r2⦄ later)
                later
                7)
            && includes later.bucket 7))
delete_messages_job_lem_example =
    delete_messages_job_lem ⦃o = first_orm⦄ ⦃k = plain_packages⦄ ⦃r = plain_r2⦄ first_orm-IsOrm
      plain_r2-IsUp 7 later

-- A bucket that refuses to delete.
abbrev stuck_r2 : R2
stuck_r2 = record plain_r2 { delete_objects = λ keys bucket. none }

stuck_r2-IsThorough : IsThorough stuck_r2
stuck_r2-IsThorough = record {
  delete_objects_thorough = λ keys bucket left e. absurd (ground arith);
}

left_over :
    includes
      (delete_messages_job ⦃o = first_orm⦄ ⦃k = plain_packages⦄ ⦃r = stuck_r2⦄ later).1.bucket
      7
    ≡ true
unfolding delete_messages_job find_messages_to_cleanup storage_keys clean_up delete_files
    delete_from delete_batch
left_over = refl

delete_messages_job-keeps_example :
    (delete_messages_job ⦃o = first_orm⦄ ⦃k = plain_packages⦄ ⦃r = stuck_r2⦄ later).1
    ≡ record later {
      bucket =
          (delete_messages_job ⦃o = first_orm⦄ ⦃k = plain_packages⦄ ⦃r = stuck_r2⦄ later).1.bucket;
    }
delete_messages_job-keeps_example =
    delete_messages_job-keeps ⦃o = first_orm⦄ ⦃k = plain_packages⦄ ⦃r = stuck_r2⦄ first_orm-IsOrm
      stuck_r2-IsThorough 7 later refl left_over

-- The user 10 is deleted; the group 1 stays with the user 11.
abbrev without_user : Result (Unit {0}) × Store
without_user = delete_user ⦃o = first_orm⦄ ⦃r = plain_r2⦄ 10 files

delete_user_lem_example :
    (without_user.0 ≡ ok tt)
    × (user_exists without_user.1.users 10 ≡ false)
    × (any (λ m. m.user_id == 10) without_user.1.members ≡ false)
    × (any (sent_by (λ id. id == 10)) without_user.1.messages ≡ false)
    × (is_forgotten 10 without_user.1 ≡ true)
    × (conversation_exists without_user.1.conversations 1
        ≡ (not (is_last 10 files.members 1) && conversation_exists files.conversations 1))
delete_user_lem_example =
    delete_user_lem ⦃o = first_orm⦄ ⦃r = plain_r2⦄ first_orm-IsOrm plain_r2-IsUp 10 1 files refl
