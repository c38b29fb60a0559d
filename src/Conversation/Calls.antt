-- ===== src/Conversation/Calls.antt =====
-- The calls that requests and WebSocket messages make of the conversation service
-- (src/controllers/conversation.controller.ts, src/websocket/handlers), and histories of them. A
-- call runs to its end before the next one begins; its answer, an exception included, goes to the
-- caller, and the store keeps what was committed.
use messinger_backend.Prelude.{String, List, [], ◌∷◌}
use messinger_backend.Types.{Uuid, Date, private}
use messinger_backend.Orm.{Orm}
use messinger_backend.Packages.{Packages}
use messinger_backend.Store.{Store}
use messinger_backend.Conversation.Private.{
  get_or_create_private_conversation, delete_private_conversation, reset_unread_messages_count,
}
use messinger_backend.Conversation.Invitation.{
  validate_group_invitation, accept_group_invitation, reject_group_invitation,
}
use messinger_backend.Conversation.Group.{
  create_group, leave_group, transfer_group_ownership, remove_group_member, delete_group,
}

pub data Call : Type 0 where
  open_private : (creator_id : Uuid) (members : List Uuid) → Call
  create : (owner_id : Uuid) (name : String) → Call
  invite : (actor_id conversation_id target_user_id : Uuid) → Call
  accept reject : (conversation_id user_id : Uuid) → Call
  leave : (user_id conversation_id : Uuid) → Call
  transfer : (prev_owner conversation_id new_owner_id : Uuid) → Call
  remove : (user_id conversation_id target_user_id : Uuid) → Call
  delete : (user_id conversation_id : Uuid) → Call
  delete_private : (user_id conversation_id : Uuid) → Call
  reset_unread : (user_id conversation_id : Uuid) → Call

module _ ⦃o : Orm⦄ ⦃k : Packages⦄ where
  unfoldable pub perform : Call → Store → Store
  perform (open_private u us) s = (get_or_create_private_conversation private u us s).1
  perform (create u name) s = (create_group u name s).1
  perform (invite a c t) s = (validate_group_invitation a c t s).1
  perform (accept c u) s = (accept_group_invitation c u s).1
  perform (reject c u) s = (reject_group_invitation c u s).1
  perform (leave u c) s = (leave_group u c s).1
  perform (transfer p c n) s = (transfer_group_ownership p c n s).1
  perform (remove u c t) s = (remove_group_member u c t s).1
  perform (delete u c) s = (delete_group u c s).1
  perform (delete_private u c) s = (delete_private_conversation u c s).1
  perform (reset_unread u c) s = (reset_unread_messages_count u c s).1

  unfoldable pub run : List (Date × Call) → Store → Store
  run [] s = s
  run ((now, call) ∷ calls) s = run calls (perform call (record s { clock = now }))

-- A database with no row.
abbrev pub empty : Store
empty = record {
  conversations = [];
  members = [];
  events = [];
  invitations = [];
  users = [];
  sessions = [];
  messages = [];
  deliveries = [];
  attachments = [];
  uploads = [];
  subscriptions = [];
  bucket = [];
  clock = 0;
  serial = 0;
  emitted = [];
  pushed = [];
}
