-- ===== src/Messages/Attachments.antt =====
-- How the attachments of a message use up the pending uploads.
use messinger_backend.Prelude.{
  All, Any, sym, some, ◌++◌, ◌+◌, ◌≡◌, refl, Bool, true, false, not, ◌&&◌, List, [], ◌∷◌, arith,
  map, filter, includes, any, ltb, ◌==◌, Option-cases, Bool-cases, inl, inr, subst, ==_iff,
}
use messinger_backend.Prelude.Rows.{all, any-filter, any-filter_out}
use mathlib.Core.List.{append-nil, append_assoc}
use messinger_backend.Prelude.Cuts.{map-append}
use messinger_backend.Types.{Uuid}
use messinger_backend.Exceptions.{Exception, Result-cases, ok, err, IsOk}
use messinger_backend.Entities.{PendingUpload, MessageAttachment}
use messinger_backend.Orm.{Orm, IsOrm, Found, insert_rows}
use messinger_backend.R2.{R2, IsR2}
use messinger_backend.Store.{Store}
use messinger_backend.Store.Constraints.{admits_attachment}
use messinger_backend.Repositories.{
  NewAttachment, create_attachments, attachment_rows, own_upload, new_attachment,
  find_by_id_and_user, delete_by_id,
}
use messinger_backend.Storage.{
  attached, check_attachments, delete_uploads, process_message_attachments, object_exists,
}

-- The user's own upload, not expired, with its object in the bucket.
abbrev pub is_usable : Uuid → Uuid → Store → PendingUpload → Bool
is_usable id user_id s u =
    own_upload id user_id u && not (ltb u.expires_at s.clock) && includes s.bucket u.storage_key

-- What has been checked, if nothing was refused.
abbrev pub Checked : Uuid → List Uuid → Store → List PendingUpload → Type 0
Checked user_id ids s us =
    (map (λ u. u.id) us ≡ ids)
    × (all (λ u. is_usable u.id user_id s u) us ≡ true)
    × All (λ u. Any (λ x. x ≡ u) s.uploads) us

abbrev drop_uploads : List PendingUpload → List PendingUpload → List PendingUpload
drop_uploads [] rows = rows
drop_uploads (u ∷ us) rows = drop_uploads us (filter (λ v. not (v.id == u.id)) rows)

drop_uploads-none :
    (us rows : List PendingUpload) (id : Uuid)
    → any (λ v. v.id == id) rows ≡ false
    → any (λ v. v.id == id) (drop_uploads us rows) ≡ false
drop_uploads-none [] rows id h = h
drop_uploads-none (u ∷ us) rows id h =
    drop_uploads-none us (filter (λ v. not (v.id == u.id)) rows) id
      (any-filter (λ v. v.id == id) (λ v. not (v.id == u.id)) rows h)

drop_uploads-gone :
    (us rows : List PendingUpload) (id : Uuid)
    → any (λ u. u.id == id) us ≡ true
    → any (λ v. v.id == id) (drop_uploads us rows) ≡ false
drop_uploads-gone [] rows id h = absurd (ground arith)
drop_uploads-gone (u ∷ us) rows id h = elim (Bool-cases (u.id == id)) [
  | inl same ↦
      drop_uploads-none us (filter (λ v. not (v.id == u.id)) rows) id
        (any-filter_out (λ v. v.id == id) (λ v. not (v.id == u.id)) rows (λ v t. ground arith))
  | inr other ↦ drop_uploads-gone us (filter (λ v. not (v.id == u.id)) rows) id (ground arith)
]

any-ids :
    (us : List PendingUpload) (id : Uuid)
    → any (λ u. u.id == id) us ≡ includes (map (λ u. u.id) us) id
any-ids [] id = refl
any-ids (u ∷ us) id = ground (arith, any-ids us id)

all-includes :
    (p : Uuid → Bool) (ids : List Uuid) (id : Uuid)
    → all p ids ≡ true
    → includes ids id ≡ true
    → p id ≡ true
all-includes p [] id h i = absurd (ground arith)
all-includes p (x ∷ ids) id h i = elim (Bool-cases (x == id)) [
  | inl same ↦ subst (λ a. p a ≡ true) ((==_iff x id).0 same) (ground arith)
  | inr other ↦ all-includes p ids id (ground arith) (ground arith)
]

-- The row without the columns that the database generates.
abbrev pub columns : MessageAttachment → NewAttachment
columns a = record {
  storage_key = a.storage_key;
  file_name = a.file_name;
  content_type = a.content_type;
  size = a.size;
  message_id = a.message_id;
}

-- The columns of the row that a message gets for an upload.
abbrev pub upload_columns : Uuid → PendingUpload → NewAttachment
upload_columns message_id u = record {
  storage_key = u.storage_key;
  file_name = u.file_name;
  content_type = u.content_type;
  size = u.size;
  message_id = message_id;
}

insert_rows-append :
    (admits : List MessageAttachment → MessageAttachment → Bool)
    (rows table after : List MessageAttachment)
    → insert_rows admits rows table ≡ some after
    → map columns after ≡ map columns table ++ map columns rows
insert_rows-append admits [] table after e = ground (arith, append-nil (map columns table))
insert_rows-append admits (r ∷ rs) table after e = ground (
  arith,
  insert_rows-append admits rs (table ++ r ∷ []) after,
  map-append columns table (r ∷ []),
  append_assoc (map columns table) (columns r ∷ []) (map columns rs),
)

module _ ⦃o : Orm⦄ where
  delete_uploads_lem :
      (l : IsOrm o) (us : List PendingUpload) (s : Store)
      → delete_uploads us s ≡ (ok tt, record s { uploads = drop_uploads us s.uploads })
  unfolding delete_uploads delete_by_id
  delete_uploads_lem l [] s = refl
  delete_uploads_lem l (u ∷ us) s = ground (
    arith,
    l.delete_lem PendingUpload (λ v. v.id == u.id) s.uploads,
    delete_uploads_lem l us (record s { uploads = filter (λ v. not (v.id == u.id)) s.uploads }),
  )

  attachment_rows-frame :
      (as_ : List NewAttachment) (s : Store)
      → (attachment_rows as_ s).1 ≡ record s { serial = (attachment_rows as_ s).1.serial }
  unfolding attachment_rows
  attachment_rows-frame [] s = refl
  attachment_rows-frame (a ∷ as_) s =
      ground (arith, attachment_rows-frame as_ (record s { serial = s.serial + 1 }))

  create_attachments-frame :
      (as_ : List NewAttachment) (s : Store)
      → (create_attachments as_ s).1 ≡ record s {
        serial = (create_attachments as_ s).1.serial;
        attachments = (create_attachments as_ s).1.attachments;
      }
  unfolding create_attachments
  create_attachments-frame [] s = refl
  create_attachments-frame (a ∷ as_) s = ground (arith, attachment_rows-frame (a ∷ as_) s)

  attachment_rows-columns :
      (as_ : List NewAttachment) (s : Store)
      → (rows : List MessageAttachment) × ((attachment_rows as_ s).0 ≡ ok rows)
        × (map columns rows ≡ as_)
  unfolding attachment_rows
  attachment_rows-columns [] s = ([], refl, refl)
  attachment_rows-columns (a ∷ as_) s =
      let (rows, made, same) = attachment_rows-columns as_ (record s { serial = s.serial + 1 }) in
      (new_attachment (o.uuid s.serial) s.clock a ∷ rows, ground arith, ground arith)

  -- The rows come after the others.
  create_attachments-columns :
      (l : IsOrm o) (as_ : List NewAttachment) (s : Store)
      → IsOk (create_attachments as_ s).0
      → map columns (create_attachments as_ s).1.attachments ≡ map columns s.attachments ++ as_
  unfolding create_attachments
  create_attachments-columns l [] s h = ground (arith, append-nil (map columns s.attachments))
  create_attachments-columns l (a ∷ as_) s h =
      let (rows, made, same) = attachment_rows-columns (a ∷ as_) s in
      elim (Option-cases (insert_rows (admits_attachment s.messages) rows s.attachments)) [
        | inl refused ↦ absurd (
            ground (
              arith,
              l.insert_lem MessageAttachment (admits_attachment s.messages) rows s.attachments,
              attachment_rows-frame (a ∷ as_) s,
            ))
        | inr (after, inserted) ↦ ground (
          arith,
          l.insert_lem MessageAttachment (admits_attachment s.messages) rows s.attachments,
          attachment_rows-frame (a ∷ as_) s,
          insert_rows-append (admits_attachment s.messages) rows s.attachments after inserted,
        )
      ]

module _ ⦃o : Orm⦄ ⦃r : R2⦄ where
  check_attachments-same :
      (user_id : Uuid) (ids : List Uuid) (s : Store) → (check_attachments user_id ids s).1 ≡ s
  unfolding check_attachments
  check_attachments-same user_id [] s = refl
  check_attachments-same user_id (id ∷ ids) s = ground (arith, check_attachments-same user_id ids s)

  check_attachments-Checked :
      (l : IsOrm o) (b : IsR2 r) (user_id : Uuid) (ids : List Uuid) (s : Store)
      (us : List PendingUpload)
      → (check_attachments user_id ids s).0 ≡ ok us
      → Checked user_id ids s us
  unfolding check_attachments find_by_id_and_user object_exists
  check_attachments-Checked l b user_id [] s us e =
      let made : us ≡ [] = ground arith in rw made (refl, refl, tt)
  check_attachments-Checked l b user_id (id ∷ ids) s us e =
      elim (Option-cases (o.find_one _ (own_upload id user_id) s.uploads)) [
        | inl none_found ↦ absurd (ground arith)
        | inr (u, found) ↦ elim (Result-cases (check_attachments user_id ids s).0) [
          | inr (x, refused) ↦ absurd (ground (arith, check_attachments-same user_id ids s))
          | inl (us', checked) ↦ elim (Option-cases (r.head_object u.storage_key s.bucket)) [
            | inl no_answer ↦ absurd (ground arith)
            | inr (there, answer) ↦
                let (own, inside) =
                  subst (Found (own_upload id user_id) s.uploads) found
                    (l.find_one-Found _ (own_upload id user_id) s.uploads) in
                let (same, usable, stored) =
                  check_attachments-Checked l b user_id ids s us' checked in
                let made : us ≡ u ∷ us' = ground (arith, check_attachments-same user_id ids s) in
                rw made (
                  ground arith,
                  ground (arith, b.head_object_lem u.storage_key s.bucket there answer),
                  (inside, stored),
                )
          ]
        ]
      ]

  pub process_message_attachments-frame :
      (l : IsOrm o) (user_id message_id : Uuid) (ids : List Uuid) (s : Store)
      → (process_message_attachments user_id message_id ids s).1 ≡ record s {
        serial = (process_message_attachments user_id message_id ids s).1.serial;
        attachments = (process_message_attachments user_id message_id ids s).1.attachments;
        uploads = (process_message_attachments user_id message_id ids s).1.uploads;
      }
  unfolding process_message_attachments
  process_message_attachments-frame l user_id message_id [] s = refl
  process_message_attachments-frame l user_id message_id (id ∷ ids) s =
      elim (Result-cases (check_attachments user_id (id ∷ ids) s).0) [
        | inr (x, refused) ↦ ground (arith, check_attachments-same user_id (id ∷ ids) s)
        | inl (us, checked) ↦
            let as_ : List NewAttachment = map (attached message_id) us in
            ground (
              arith,
              check_attachments-same user_id (id ∷ ids) s,
              create_attachments-frame as_ s,
              delete_uploads_lem l us (create_attachments as_ s).1,
            )
      ]

  refused_attachments :
      (user_id message_id : Uuid) (ids : List Uuid) (s : Store) (x : Exception) (id : Uuid)
      → (check_attachments user_id ids s).0 ≡ err x
      → IsOk (process_message_attachments user_id message_id ids s).0
      → includes ids id ≡ true
      → ⊥
  unfolding process_message_attachments
  refused_attachments user_id message_id [] s x id e h i = ground arith
  refused_attachments user_id message_id (y ∷ ids) s x id e h i = ground arith

  used_up :
      (l : IsOrm o) (user_id message_id : Uuid) (ids : List Uuid) (s : Store)
      (us : List PendingUpload) (id : Uuid)
      → (check_attachments user_id ids s).0 ≡ ok us
      → IsOk (process_message_attachments user_id message_id ids s).0
      → any (λ u. u.id == id) us ≡ true
      → any (λ v. v.id == id) (process_message_attachments user_id message_id ids s).1.uploads
        ≡ false
  unfolding process_message_attachments
  used_up l user_id message_id [] s us id e h i = absurd (ground arith)
  used_up l user_id message_id (x ∷ ids) s us id e h i =
      let as_ : List NewAttachment = map (attached message_id) us in
      ground (
        arith,
        check_attachments-same user_id (x ∷ ids) s,
        create_attachments-frame as_ s,
        delete_uploads_lem l us (create_attachments as_ s).1,
        drop_uploads-gone us s.uploads id i,
      )

  inserted_columns :
      (l : IsOrm o) (user_id message_id : Uuid) (ids : List Uuid) (s : Store)
      (us : List PendingUpload)
      → (check_attachments user_id ids s).0 ≡ ok us
      → map (λ u. u.id) us ≡ ids
      → IsOk (process_message_attachments user_id message_id ids s).0
      → map columns (process_message_attachments user_id message_id ids s).1.attachments
        ≡ map columns s.attachments ++ map (upload_columns message_id) us
  unfolding process_message_attachments
  inserted_columns l user_id message_id [] s [] e same h =
      sym (append-nil (map columns s.attachments))
  inserted_columns l user_id message_id [] s (u ∷ us) e same h = absurd (ground arith)
  inserted_columns l user_id message_id (x ∷ ids) s us e same h =
      let as_ : List NewAttachment = map (attached message_id) us in
      ground (
        arith,
        check_attachments-same user_id (x ∷ ids) s,
        create_attachments-columns l as_ s,
        delete_uploads_lem l us (create_attachments as_ s).1,
      )

  -- When the attachments of a message are processed without an error, the given ids are, in order,
  -- those of pending uploads of the sender which have not expired and whose objects are in the bucket;
  -- the table of attachments gets, in this order, exactly one row for each, of the message and with
  -- the upload's storage key, file name, type and size; and none of the ids is a pending upload
  -- afterwards.
  pub process_message_attachments_lem :
      (l : IsOrm o) (b : IsR2 r) (user_id message_id : Uuid) (ids : List Uuid) (s : Store)
      (id : Uuid)
      → IsOk (process_message_attachments user_id message_id ids s).0
      → includes ids id ≡ true
      → let after = (process_message_attachments user_id message_id ids s).1 in
        ((us : List PendingUpload) × Checked user_id ids s us
          × (map columns after.attachments
              ≡ map columns s.attachments ++ map (upload_columns message_id) us))
        × (any (λ v. v.id == id) after.uploads ≡ false)
  process_message_attachments_lem l b user_id message_id ids s id h i =
      elim (Result-cases (check_attachments user_id ids s).0) [
        | inr (x, refused) ↦ absurd (refused_attachments user_id message_id ids s x id refused h i)
        | inl (us, checked) ↦
            let (same, usable, stored) = check_attachments-Checked l b user_id ids s us checked in
            (
              (
                us,
                (same, usable, stored),
                inserted_columns l user_id message_id ids s us checked same h,
              ),
              used_up l user_id message_id ids s us id checked h (rw (any-ids us id) (rw same i)),
            )
      ]
