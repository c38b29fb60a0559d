-- ===== src/Conversation/Deletion.antt =====
-- When a private conversation goes.
use messinger_backend.Prelude.{List, map_where, some}
use messinger_backend.Types.{Uuid, Date}
use messinger_backend.Entities.{Conversation, ConversationMember}
use messinger_backend.Orm.{Orm}
use messinger_backend.Store.{Store}
use messinger_backend.Store.Constraints.{same_member}

-- The members after the user's own row is hidden.
abbrev hidden : Uuid → Uuid → Date → List ConversationMember → List ConversationMember
hidden c u now = map_where (same_member c u) (λ m. record m { soft_deleted_at = some now })
