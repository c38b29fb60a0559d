-- ===== src/Jobs/Cleanup.antt =====
-- What the cleanup of old messages leaves.
use messinger_backend.Prelude.{
  none, map_where, ℕ, ◌≡◌, refl, Bool, true, not, ◌&&◌, List, [], ◌∷◌, arith, map, any, filter, ltb,
  includes, ◌==◌, inl, inr,
}
use messinger_backend.Prelude.Rows.{any-append}
use messinger_backend.Types.{Uuid, Date}
use messinger_backend.Exceptions.{Result-cases}
use messinger_backend.Entities.{Message, MessageAttachment}
use messinger_backend.Orm.{Orm, IsOrm, orm-eq-table_orm}
use messinger_backend.Packages.{Packages}
use messinger_backend.R2.{R2, IsThorough, IsUp, without, includes-without}
use messinger_backend.Store.{Store}
use messinger_backend.Repositories.{has_last, find_messages_to_cleanup, delete_messages_older_than}
use messinger_backend.Storage.{delete_files}
use messinger_backend.Storage.Batches.{delete_files_lem, delete_files-ok, delete_files-frame}
use messinger_backend.Jobs.{storage_keys, clean_up, delete_messages_job, max_message_age_days}

-- A file of a message that is older than the cutoff.
abbrev pub is_old_file : Date → Store → ℕ → Bool
is_old_file cutoff s key =
    any
      (λ m.
        ltb m.created_at cutoff
        && any (λ a. a.message_id == m.id && a.storage_key == key) s.attachments)
      s.messages

includes-keys :
    (id : Uuid) (key : ℕ) (rows : List MessageAttachment)
    → includes (map (λ a. a.storage_key) (filter (λ a. a.message_id == id) rows)) key
      ≡ any (λ a. a.message_id == id && a.storage_key == key) rows
includes-keys id key [] = refl
includes-keys id key (a ∷ rows) = ground (arith, includes-keys id key rows)

module _ ⦃o : Orm⦄ where
  includes-storage_keys :
      (l : IsOrm o) (p : Message → Bool) (key : ℕ) (ms : List Message)
      (rows : List MessageAttachment)
      → includes (storage_keys (filter p ms) rows) key
        ≡ any (λ m. p m && any (λ a. a.message_id == m.id && a.storage_key == key) rows) ms
  unfolding storage_keys
  includes-storage_keys l p key [] rows = refl
  includes-storage_keys l p key (m ∷ ms) rows = ground (
    arith,
    l.find_lem MessageAttachment (λ a. a.message_id == m.id) rows,
    any-append (λ x. x == key) (map (λ a. a.storage_key) (filter (λ a. a.message_id == m.id) rows))
        (storage_keys (filter p ms) rows),
    includes-keys m.id key rows,
    includes-storage_keys l p key ms rows,
  )

  -- The rows that are left.
  abbrev pub kept : Date → Store → Store
  kept cutoff s = record s {
    conversations =
        map_where (has_last (λ id. any (λ m. ltb m.created_at cutoff && m.id == id) s.messages))
          (λ c. record c { last_message_id = none }) s.conversations;
    messages = filter (λ m. not (ltb m.created_at cutoff)) s.messages;
    deliveries =
        filter (λ d. not (any (λ m. ltb m.created_at cutoff && m.id == d.message_id) s.messages))
          s.deliveries;
    attachments =
        filter (λ a. not (any (λ m. ltb m.created_at cutoff && m.id == a.message_id) s.messages))
          s.attachments;
  }

  delete_messages_older_than_lem :
      (l : IsOrm o) (cutoff : Date) (s : Store)
      → (delete_messages_older_than cutoff s).1 ≡ kept cutoff s
  delete_messages_older_than_lem l cutoff s =
      rw (orm-eq-table_orm l) (unfold delete_messages_older_than in ground arith)

abbrev pub is_old : Date → Message → Bool
is_old cutoff m = ltb m.created_at cutoff

none-filter :
    (p : Message → Bool) (ms : List Message) → filter p ms ≡ [] → filter (λ m. not (p m)) ms ≡ ms
none-filter p [] e = refl
none-filter p (m ∷ ms) e = ground (arith, none-filter p ms)

module _ ⦃o : Orm⦄ ⦃k : Packages⦄ ⦃r : R2⦄ where
  abbrev pub cutoff_at : Store → Date
  cutoff_at s = k.sub_days s.clock max_message_age_days

  delete_messages_job_steps :
      (l : IsOrm o) (s : Store)
      → delete_messages_job s
        ≡ clean_up
            (map (λ m. m.id) (filter (is_old (cutoff_at s)) s.messages))
            (storage_keys (filter (is_old (cutoff_at s)) s.messages) s.attachments)
            (cutoff_at s)
            s
  unfolding delete_messages_job find_messages_to_cleanup
  delete_messages_job_steps l s =
      ground (arith, l.find_lem Message (is_old (cutoff_at s)) s.messages)

  clean_up_up :
      (l : IsOrm o) (up : IsUp r) (id : Uuid) (ids : List Uuid) (keys : List ℕ) (cutoff : Date)
      (s : Store)
      → (clean_up (id ∷ ids) keys cutoff s).1
        ≡ kept cutoff (record s { bucket = without keys s.bucket })
  unfolding clean_up
  clean_up_up l up id ids keys cutoff s = ground (
    arith,
    delete_files_lem up keys s,
    delete_messages_older_than_lem l cutoff (record s { bucket = without keys s.bucket }),
  )

  -- Both cases, by the old messages `old`.
  clean_up_lem :
      (l : IsOrm o) (up : IsUp r) (old : List Message) (key : ℕ) (cutoff : Date) (s : Store)
      → filter (is_old cutoff) s.messages ≡ old
      → let after : Store =
          (clean_up (map (λ m. m.id) old) (storage_keys old s.attachments) cutoff s).1 in
        (after.messages ≡ filter (λ m. not (ltb m.created_at cutoff)) s.messages)
        × (includes after.bucket key
            ≡ (not (includes (storage_keys old s.attachments) key) && includes s.bucket key))
  clean_up_lem l up [] key cutoff s e =
      unfold clean_up in
      unfold storage_keys in (ground (arith, none-filter (is_old cutoff) s.messages e), refl)
  clean_up_lem l up (m ∷ ms) key cutoff s e =
      let step =
        clean_up_up l up m.id (map (λ x. x.id) ms) (storage_keys (m ∷ ms) s.attachments) cutoff s in
      (
        ground (arith, step),
        ground (arith, step, includes-without (storage_keys (m ∷ ms) s.attachments) s.bucket key),
      )

  -- If every answered request deletes its keys, a file is left over only if no message was deleted.
  clean_up_left :
      (b : IsThorough r) (ids : List Uuid) (keys : List ℕ) (cutoff : Date) (key : ℕ) (s : Store)
      → includes keys key ≡ true
      → includes (clean_up ids keys cutoff s).1.bucket key ≡ true
      → (clean_up ids keys cutoff s).1 ≡ record s { bucket = (clean_up ids keys cutoff s).1.bucket }
  unfolding clean_up delete_messages_older_than
  clean_up_left b [] keys cutoff key s h i = refl
  clean_up_left b (id ∷ ids) keys cutoff key s h i = elim (Result-cases (delete_files keys s).0) [
    | inr (x, failed) ↦ ground (arith, delete_files-frame keys s)
    | inl (u, done) ↦
        absurd (
          ground (arith, delete_files-ok b keys s (rw done tt), includes-without keys s.bucket key))
  ]

  -- While the bucket accepts every request within its limit, the job leaves exactly the messages
  -- that are not older than its cutoff, and takes exactly the files of the others out of the bucket.
  pub delete_messages_job_lem :
      (l : IsOrm o) (up : IsUp r) (key : ℕ) (s : Store)
      → ((delete_messages_job s).1.messages
          ≡ filter (λ m. not (ltb m.created_at (cutoff_at s))) s.messages)
        × (includes (delete_messages_job s).1.bucket key
            ≡ (not (is_old_file (cutoff_at s) s key) && includes s.bucket key))
  delete_messages_job_lem l up key s =
      let old : List Message = filter (is_old (cutoff_at s)) s.messages in
      let (rows, files) = clean_up_lem l up old key (cutoff_at s) s refl in
      let steps = delete_messages_job_steps l s in
      (
        ground (arith, steps, rows),
        ground (
          arith,
          steps,
          files,
          includes-storage_keys l (is_old (cutoff_at s)) key s.messages s.attachments,
        ),
      )

  -- Provided that a deletion request which is answered has deleted every key that it names: if a file
  -- of an old message is still in the bucket after the job, then the job has changed nothing but the
  -- bucket.
  pub delete_messages_job-keeps :
      (l : IsOrm o) (b : IsThorough r) (key : ℕ) (s : Store)
      → is_old_file (cutoff_at s) s key ≡ true
      → includes (delete_messages_job s).1.bucket key ≡ true
      → (delete_messages_job s).1 ≡ record s { bucket = (delete_messages_job s).1.bucket }
  delete_messages_job-keeps l b key s h i =
      let e = delete_messages_job_steps l s in
      ground (
        arith,
        e,
        includes-storage_keys l (is_old (cutoff_at s)) key s.messages s.attachments,
        clean_up_left b (map (λ m. m.id) (filter (is_old (cutoff_at s)) s.messages))
            (storage_keys (filter (is_old (cutoff_at s)) s.messages) s.attachments) (cutoff_at s)
            key s,
      )
