-- ===== src/Chat/Rooms.antt =====
-- A chat room with its participants, its events and its notices, and what each membership operation reads and writes of them, in apps/chat/models.py and apps/chat/services.py.
use asoud_backend_full.Prelude.{ℕ, Bool, true, false, not, ◌&&◌, Option, some, List, ◌∷◌, ◌==◌, any}
use asoud_backend_full.Exec.{
  Exec, membership, constraint_error, MembershipCode, membership_system_managed, room_not_active,
  not_a_participant, raise, raise_if, or_raise, modify,
}
use asoud_backend_full.Chat.Steps.{◌>>◌}
use asoud_backend_full.Table.{Table, lookup, update, remove, append}

pub data RoomType : Type 0 where
  private group support market : RoomType

pub data RoomStatus : Type 0 where
  active archived blocked : RoomStatus

pub data Role : Type 0 where
  owner admin member : Role

-- A row of `ChatParticipant`, without its keys.
pub record Participant : Type 0 where
  pub role : Role
  pub invited_by : Option ℕ
  pub role_updated_at : ℕ

pub data MembershipAction : Type 0 where
  member_added member_removed member_left role_changed ownership_transferred room_archived :
      MembershipAction

-- A row of `ChatMembershipEvent`.
pub record MembershipEvent : Type 0 where
  pub actor : Option ℕ
  pub subject : Option ℕ
  pub action : MembershipAction
  pub old_role : Option Role
  pub new_role : Option Role

-- What `_notify_membership` publishes after the commit.
pub data NoticeType : Type 0 where
  membership_updated membership_revoked : NoticeType

-- A `ChatRoom` with its participants, in the order in which they joined, and its events and
-- notices, the newest first.
pub record Room : Type 0 where
  pub room_type : RoomType
  pub status : RoomStatus
  pub max_participants : ℕ
  pub participants : Table Participant
  pub events : List MembershipEvent
  pub notices : List (NoticeType × ℕ × Option Role)

abbrev pub is_owner : Role → Bool
is_owner role = elim role [ owner ↦ true | _ ↦ false ]

abbrev pub is_admin : Role → Bool
is_admin role = elim role [ admin ↦ true | _ ↦ false ]

abbrev pub is_member : Role → Bool
is_member role = elim role [ member ↦ true | _ ↦ false ]

abbrev pub is_group_room : RoomType → Bool
is_group_room type = elim type [ group ↦ true | _ ↦ false ]

abbrev pub is_active_room : RoomStatus → Bool
is_active_room status = elim status [ active ↦ true | _ ↦ false ]

abbrev pub same_role : Role → Role → Bool
same_role owner owner = true
same_role admin admin = true
same_role member member = true
same_role _ _ = false

abbrev pub raise_membership_if : Bool → MembershipCode → Exec Room (Unit {0})
raise_membership_if test code = raise_if test (membership code)

-- `_require_group`
unfoldable pub require_group : Exec Room (Unit {0})
require_group room =
    (raise_membership_if (not (is_group_room room.room_type)) membership_system_managed
        >> raise_membership_if (not (is_active_room room.status)) room_not_active)
      room

-- `_membership`
unfoldable pub get_membership : ℕ → Exec Room Participant
get_membership user room =
    or_raise (lookup user room.participants) (membership not_a_participant) room

-- `_audit_membership`
unfoldable pub audit_membership : MembershipEvent → Exec Room (Unit {0})
audit_membership event = modify (λ (r : Room). record r { events = event ∷ r.events })

-- `_notify_membership`
unfoldable pub notify_membership : NoticeType → ℕ → Option Role → Exec Room (Unit {0})
notify_membership type user role =
    modify (λ (r : Room). record r { notices = (type, user, role) ∷ r.notices })

-- Another owner, whom the constraint `chat_one_owner_per_room` forbids.
abbrev pub is_other_owner : ℕ → ℕ × Participant → Bool
is_other_owner user row = not (row.0 == user) && is_owner row.1.role

unfoldable pub save_participant : Bool → ℕ → Participant → Exec Room (Unit {0})
save_participant true user p = raise constraint_error
save_participant false user p =
    modify (λ (r : Room). record r { participants = update user p r.participants })

-- `membership.save(update_fields=['role', 'role_updated_at'])`
unfoldable pub save_role : ℕ → ℕ → Role → Participant → Exec Room (Unit {0})
unfolding save_participant
save_role now user role p room =
    save_participant (is_owner role && any (is_other_owner user) room.participants) user
      (record p { role = role; role_updated_at = now }) room

unfoldable pub create_participant : ℕ → Participant → Exec Room (Unit {0})
create_participant user p =
    modify (λ (r : Room). record r { participants = append user p r.participants })

unfoldable pub delete_participant : ℕ → Exec Room (Unit {0})
delete_participant user =
    modify (λ (r : Room). record r { participants = remove user r.participants })

abbrev pub event_of : ℕ → ℕ → MembershipAction → Option Role → Option Role → MembershipEvent
event_of actor subject action old_role new_role = record {
  actor = some actor;
  subject = some subject;
  action = action;
  old_role = old_role;
  new_role = new_role;
}
