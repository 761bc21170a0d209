-- ===== src/Chat/Membership/Moves.antt =====
-- What one membership operation does to a room: a relation that the proofs read in place of the
-- operations.
use asoud_backend_full.Prelude.{
  ℕ, ◌≤◌, ◌<◌, ◌≡◌, true, Bool, true, false, Option, none, some, List, ◌∷◌, ◌==◌, length,
  if◌then◌else◌,
}
use asoud_backend_full.Table.{lookup, update, remove, append}
use asoud_backend_full.Chat.Rooms.{
  Room, Role, owner, admin, Participant, MembershipAction, member_added, member_removed,
  member_left, role_changed, ownership_transferred, room_archived, archived, NoticeType, is_owner,
  is_active_room, event_of,
}

abbrev pub Notices : Type 0
Notices = List (NoticeType × ℕ × Option Role)

-- A row removed, under either of the two actions.
abbrev pub gone_action : Bool → MembershipAction
gone_action own = if own then member_left else member_removed

pub data Move (r u : Room) : Type 0 where
  stays : u ≡ r → Move r u
  joins :
      (user by : ℕ) (p : Participant) (notices : Notices)
      → is_active_room r.status ≡ true
      → is_owner p.role ≡ false
      → length r.participants < r.max_participants
      → u ≡ record r {
        participants = append user p r.participants;
        events = event_of by user member_added none (some p.role) ∷ r.events;
        notices = notices;
      }
      → Move r u
  goes :
      (own : Bool) (user by : ℕ) (p : Participant) (notices : Notices)
      → lookup user r.participants ≡ some p
      → is_owner p.role ≡ false
      → u ≡ record r {
        participants = remove user r.participants;
        events = event_of by user (gone_action own) (some p.role) none ∷ r.events;
        notices = notices;
      }
      → Move r u
  changes :
      (user by now : ℕ) (role : Role) (p : Participant) (notices : Notices)
      → lookup user r.participants ≡ some p
      → is_owner p.role ≡ false
      → is_owner role ≡ false
      → u ≡ record r {
        participants = update user (record p { role = role; role_updated_at = now }) r.participants;
        events = event_of by user role_changed (some p.role) (some role) ∷ r.events;
        notices = notices;
      }
      → Move r u
  hands_over :
      (user by now : ℕ) (p q : Participant) (notices : Notices)
      → lookup user r.participants ≡ some p
      → lookup by r.participants ≡ some q
      → is_owner q.role ≡ true
      → (user == by) ≡ false
      → u ≡ record r {
        participants =
            update user
              (record p { role = owner; role_updated_at = now })
              (update by (record q { role = admin; role_updated_at = now }) r.participants);
        events = event_of by user ownership_transferred (some p.role) (some owner) ∷ r.events;
        notices = notices;
      }
      → Move r u
  closes :
      (user : ℕ) (p : Participant) (notices : Notices)
      → lookup user r.participants ≡ some p
      → length r.participants ≤ 1
      → u ≡ record r {
        status = archived;
        participants = remove user r.participants;
        events =
            event_of user user room_archived (some p.role) none
            ∷ event_of user user member_left (some p.role) none
            ∷ r.events;
        notices = notices;
      }
      → Move r u
  archives :
      (by : ℕ)
      → u
        ≡ record r { status = archived; events = event_of by by room_archived none none ∷ r.events }
      → Move r u
