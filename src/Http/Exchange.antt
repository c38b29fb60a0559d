-- ===== src/Http/Exchange.antt =====
-- What a request brings, what the middlewares and controllers write, and the schemas of src/dtos.
use messinger_backend.Prelude.{ℕ, Option, none, List, String}
use messinger_backend.Types.{Uuid, UserRole, UserStatus}
use messinger_backend.Exceptions.{Exception, type_error}
use messinger_backend.Entities.{User, PendingUpload}
use messinger_backend.Auth.Middleware.{Cookies, kept}
use messinger_backend.Store.{Action, or_throw}
use messinger_backend.Repositories.{TokenPair, ListedConversation, WebPushSubscription}
use messinger_backend.Pagination.{Paginated}
use messinger_backend.Storage.{UploadFile, PresignedUrl}
use messinger_backend.Messages.History.{HistoryPage}
use messinger_backend.Conversation.Listing.{Bootstrap}

-- The schemas that the routes validate with; `password_schema` is
-- `AdminSchema.pick({ password: true })`.
pub data Schema : Type 0 where
  sign_up_schema sign_in_schema create_group_schema leave_group_schema : Schema
  transfer_ownership_schema delete_conversation_schema get_messages_schema : Schema
  remove_member_schema upload_schema download_schema user_code_schema admin_schema : Schema
  user_schema list_user_messages_schema list_users_schema list_conversations_schema : Schema
  subscription_schema unsubscription_schema delete_messages_schema reset_unread_schema : Schema
  password_schema : Schema

-- `z.infer` of them. The three schemas of an object with just a `conversationId` give the same dto.
pub data Dto : Type 0 where
  sign_up_dto : (role : UserRole) (username : String) → Dto
  sign_in_dto : (login_key : String) → Dto
  create_group_dto : (name : String) (members : List Uuid) → Dto
  conversation_dto : (conversation_id : Uuid) → Dto
  transfer_ownership_dto : (conversation_id new_owner_id : Uuid) → Dto
  remove_member_dto : (conversation_id target_user_id : Uuid) → Dto
  get_messages_dto : (conversation_id : Uuid) (cursor : Option Uuid) (limit : ℕ) → Dto
  list_conversations_dto : (user_id cursor : Option Uuid) (limit : ℕ) → Dto
  delete_messages_dto : (conversation_id : Uuid) (messages_ids : List Uuid) → Dto
  upload_dto : (files : List UploadFile) → Dto
  download_dto : (attachment_id : Uuid) → Dto
  user_code_dto : (user_code : String) → Dto
  list_users_dto : (cursor : Option Uuid) (limit : ℕ) → Dto
  admin_dto : (password admin_name : String) → Dto
  password_dto : (password : String) → Dto
  user_dto : (user_id : Uuid) → Dto
  list_user_messages_dto : (user_id conversation_id : Uuid) (cursor : Option Uuid) (limit : ℕ) → Dto
  subscription_dto : WebPushSubscription → Dto
  endpoint_dto : (endpoint : ℕ) → Dto

-- zod, with the schemas that `env.MAX_PAGE_SIZE` is a part of.
pub record Zod : Type 0 where
  -- `schema.parseAsync` of the body, the query and the parameters, merged; `none` is a `ZodError`.
  pub parse : Schema → String → Option Dto

-- What a controller sends: `res.json` or `res.sendStatus`.
pub data Body : Type 0 where
  no_body : Body
  error_body : Exception → Body
  message_body : String → Body
  sign_up_body : (username : Option String) (status : UserStatus) (login_key : String) → Body
  user_body : User → Body
  admin_body : (admin_name : String) → Body
  key_body : (login_key : String) → Body
  group_body : (id : Uuid) (name : Option String) → Body
  history_body : HistoryPage → Body
  bootstrap_body : Bootstrap → Body
  users_body : Paginated User → Body
  conversations_body : Paginated ListedConversation → Body
  uploads_body : List PresignedUrl → List PendingUpload → Body
  url_body : ℕ → Body

-- `cookies` is what is done with the cookies last, `headers` the tokens in the headers.
pub record Answer : Type 0 where
  pub status : ℕ
  pub body : Body
  pub cookies : Cookies
  pub headers : Option TokenPair

-- `res`, as far as the middlewares write it, with `res.locals`.
pub record Exchange : Type 0 where
  pub cookies : Cookies
  pub headers : Option TokenPair
  pub user_id : Option Uuid
  pub roles : Option (List UserRole)
  pub validated_dto : Option Dto

abbrev pub sends : ℕ → Body → Answer
sends status body = record { status = status; body = body; cookies = kept; headers = none }

-- `res.locals.userId!`, with which every controller that reads it is called.
abbrev pub the_user : Exchange → Action Uuid
the_user x = or_throw x.user_id type_error
