-- ===== src/Chat/Creation.antt =====
-- How a chat room begins, in `create_chat_room` of `apps/chat/services.py`.
use asoud_backend_full.Prelude.{
  ℕ, ◌+◌, Bool, false, ◌||◌, Option, none, some, is_some, List, [], ◌∷◌, ltb, ◌==◌, elem, length,
  if◌then◌else◌,
}
use asoud_backend_full.Exec.{
  Result, ok, err, membership, participant_limit_reached, invalid_participant_limit,
}
use asoud_backend_full.Table.{lookup, append}
use asoud_backend_full.Chat.Rooms.{
  RoomType, private, group, active, Role, owner, member, Participant, MembershipEvent, member_added,
  Room, is_group_room,
}

abbrev pub is_creator : Option ℕ → ℕ → Bool
is_creator none user = false
is_creator (some creator) user = creator == user

-- `{participant.pk: participant for participant in participants if participant != created_by}`,
-- whose keys stand in the order in which they first occur
unfoldable pub unique_participants : Option ℕ → List ℕ → List ℕ → List ℕ
unique_participants creator seen [] = []
unique_participants creator seen (user ∷ users) =
    if is_creator creator user || elem user seen
    then unique_participants creator seen users
    else user ∷ unique_participants creator (user ∷ seen) users

-- `ChatRoom.objects.create(...)`
abbrev pub new_room : RoomType → ℕ → Room
new_room type limit = record {
  room_type = type;
  status = active;
  max_participants = limit;
  participants = [];
  events = [];
  notices = [];
}

-- A new participant, whose arrival the log of a group records.
unfoldable pub join_room : ℕ → Option ℕ → Option ℕ → ℕ → Role → Room → Room
join_room now creator inviter user role room =
    let participant : Participant = record {
      role = role;
      invited_by = inviter;
      role_updated_at = now;
    } in
    let event : MembershipEvent = record {
      actor = creator;
      subject = some user;
      action = member_added;
      old_role = none;
      new_role = some role;
    } in
    record room {
      participants = append user participant room.participants;
      events = if is_group_room room.room_type then event ∷ room.events else room.events;
    }

abbrev pub creator_role : RoomType → Role
creator_role type = if is_group_room type then owner else member

unfoldable pub join_creator : ℕ → Option ℕ → Room → Room
unfolding join_room
join_creator now none room = room
join_creator now (some creator) room =
    join_room now (some creator) none creator (creator_role room.room_type) room

-- `get_or_create`
unfoldable pub join_participant : ℕ → Option ℕ → ℕ → Room → Room
unfolding join_room
join_participant now creator user room =
    if is_creator creator user || is_some (lookup user room.participants)
    then room
    else join_room now creator creator user member room

unfoldable pub join_all : ℕ → Option ℕ → List ℕ → Room → Room
unfolding join_participant
join_all now creator [] room = room
join_all now creator (user ∷ users) room =
    join_all now creator users (join_participant now creator user room)

abbrev pub creator_count : Option ℕ → ℕ
creator_count none = 0
creator_count (some _) = 1

unfoldable pub create_group : ℕ → ℕ → Option ℕ → List ℕ → ℕ → Result Room
unfolding unique_participants join_creator join_all
create_group cap now creator users limit =
    let others = unique_participants creator [] users in
    if ltb limit 2 || ltb cap limit
    then err (membership invalid_participant_limit)
    else if ltb limit (length others + creator_count creator)
    then err (membership participant_limit_reached)
    else ok (join_all now creator others (join_creator now creator (new_room group limit)))

unfoldable pub create_chat_room : ℕ → ℕ → RoomType → Option ℕ → List ℕ → ℕ → Result Room
unfolding create_group join_creator join_all
create_chat_room cap now group creator users limit = create_group cap now creator users limit
create_chat_room cap now private creator users limit =
    ok (join_all now creator users (join_creator now creator (new_room private 2)))
create_chat_room cap now type creator users limit =
    ok (join_all now creator users (join_creator now creator (new_room type limit)))
