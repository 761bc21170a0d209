-- ===== src/Chat/Tests.antt =====
-- Groups of a few users.
use asoud_backend_full.Prelude.{◌≡◌, refl, some, [], ◌∷◌}
use asoud_backend_full.Exec.{
  ok, err, membership, participant_limit_reached, ownership_transfer_required,
}
use asoud_backend_full.Table.{lookup, update, remove, append}
use asoud_backend_full.Chat.Rooms.{Room, active, group, owner, admin, member}
use asoud_backend_full.Chat.Membership.{
  add_group_participant, transfer_group_ownership, leave_group,
}
use asoud_backend_full.Chat.Membership.Governed.{IsGoverned}
use asoud_backend_full.Chat.Membership.Log.{IsLogged, roles}
use asoud_backend_full.Chat.Membership.Capacity.{IsWithin}
use asoud_backend_full.Chat.Creation.{join_creator, join_all, create_chat_room}
use asoud_backend_full.Chat.Groups.{
  GroupRoom, created, added, transferred, left, groups-IsGoverned, groups-IsLogged, groups-IsWithin,
}

-- User 1 and two others, in a room for three.
abbrev trio : Room
trio = join_all 0 (some 1) (2 ∷ 3 ∷ []) (
    join_creator 0 (some 1) (record {
      room_type = group;
      status = active;
      max_participants = 3;
      participants = [];
      events = [];
      notices = [];
    }))

trio_created : create_chat_room 100 0 group (some 1) (2 ∷ 3 ∷ 2 ∷ []) 3 ≡ ok trio
unfolding create_chat_room
trio_created = refl

trio_is_full :
    (add_group_participant 100 5 4 1 member trio).0 ≡ err (membership participant_limit_reached)
unfolding add_group_participant asoud_backend_full.Chat.Steps.◌>>◌ join_all lookup join_creator
    append asoud_backend_full.Chat.Steps.◌>>=◌
trio_is_full = refl

owner_stays : (leave_group 1 trio).0 ≡ err (membership ownership_transfer_required)
unfolding leave_group asoud_backend_full.Chat.Steps.◌>>◌ join_all lookup join_creator append
    asoud_backend_full.Chat.Steps.◌>>=◌
owner_stays = refl

-- User 1 hands the room to user 2 and leaves; user 2 lets user 4 in.
abbrev handed : Room
handed =
    (add_group_participant 100 7 4 2 admin
      (leave_group 1 (transfer_group_ownership 6 2 1 trio).1).1).1

handed_roles : roles handed.participants ≡ (2, owner) ∷ (3, member) ∷ (4, admin) ∷ []
unfolding add_group_participant asoud_backend_full.Chat.Steps.◌>>◌ leave_group
    transfer_group_ownership join_all lookup join_creator append asoud_backend_full.Chat.Steps.◌>>=◌
    update remove
handed_roles = refl

handed-GroupRoom : GroupRoom 100 handed
handed-GroupRoom =
    added 7 4 2 admin
      (left 1 (transferred 6 2 1 (created 0 1 (2 ∷ 3 ∷ 2 ∷ []) 3 trio trio_created)))

groups-IsGoverned_example : IsGoverned handed
groups-IsGoverned_example = groups-IsGoverned 100 handed-GroupRoom

groups-IsLogged_example : IsLogged handed
groups-IsLogged_example = groups-IsLogged 100 handed-GroupRoom

groups-IsWithin_example : IsWithin 100 handed
groups-IsWithin_example = groups-IsWithin 100 handed-GroupRoom
