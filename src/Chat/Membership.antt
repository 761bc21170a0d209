-- ===== src/Chat/Membership.antt =====
-- The members of one chat room, and the audit log of their changes. Users are compared by their
-- keys. The platform's limit `CHAT_GROUP_MAX_PARTICIPANTS` and the time are arguments.
pub mod Moves
mod Runs
mod Blocks
pub mod Operations
pub mod Governed
pub mod Log
pub mod Capacity
use asoud_backend_full.Chat.Rooms.{
  MembershipAction, MembershipEvent, NoticeType, Participant, Role, Room, RoomStatus, RoomType,
  active, admin, archived, audit_membership, blocked, create_participant, delete_participant,
  event_of, get_membership, group, is_active_room, is_admin, is_group_room, is_member,
  is_other_owner, is_owner, market, member, member_added, member_left, member_removed,
  membership_revoked, membership_updated, notify_membership, owner, ownership_transferred, private,
  raise_membership_if, require_group, role_changed, room_archived, same_role, save_participant,
  save_role, support,
}
use asoud_backend_full.Prelude.{
  ℕ, ◌+◌, ◌≤◌, min, Bool, true, false, not, ◌&&◌, ◌||◌, Option, none, some, is_some, List, [], ◌∷◌,
  ltb, leb, ◌==◌, any, elem, length, if◌then◌else◌,
}
use asoud_backend_full.Exec.{
  Exec, Result, ok, err, Fault, membership, constraint_error, MembershipCode,
  membership_system_managed, room_not_active, not_a_participant, invalid_role, permission_denied,
  participant_already_member, participant_limit_reached, ownership_transfer_required,
  invalid_transfer_target, invalid_participant_limit, pure, raise, raise_if, or_raise, gets, modify,
  atomic,
}
use asoud_backend_full.Chat.Steps.{◌>>=◌, ◌>>◌}
use asoud_backend_full.Table.{Table, lookup, update, remove, append}

-- The block of `add_group_participant`.
unfoldable pub add_block : ℕ → ℕ → ℕ → ℕ → Role → Exec Room (Unit {0})
unfolding require_group get_membership create_participant audit_membership notify_membership
add_block cap now user added_by role = do
  require_group
  actor ← get_membership added_by
  raise_membership_if (is_member actor.role) permission_denied
  raise_membership_if (is_admin actor.role && not (is_member role)) permission_denied
  rows ← gets (λ (r : Room). r.participants)
  raise_membership_if (is_some (lookup user rows)) participant_already_member
  limit ← gets (λ (r : Room). min r.max_participants cap)
  raise_membership_if (leb limit (length rows)) participant_limit_reached
  create_participant user
      (record { role = role; invited_by = some added_by; role_updated_at = now })
  audit_membership (event_of added_by user member_added none (some role))
  notify_membership membership_updated user (some role)

unfoldable pub add_group_participant : ℕ → ℕ → ℕ → ℕ → Role → Exec Room (Unit {0})
unfolding add_block
add_group_participant cap now user added_by owner = raise (membership invalid_role)
add_group_participant cap now user added_by role = atomic (add_block cap now user added_by role)

abbrev pub may_remove : Role → Role → Bool
may_remove actor target = is_owner actor || (is_admin actor && is_member target)

unfoldable pub remove_block : ℕ → ℕ → Exec Room (Unit {0})
unfolding require_group get_membership delete_participant audit_membership notify_membership
remove_block user removed_by = do
  require_group
  actor ← get_membership removed_by
  target ← get_membership user
  raise_membership_if (is_owner target.role) ownership_transfer_required
  raise_membership_if (not (may_remove actor.role target.role)) permission_denied
  delete_participant user
  audit_membership (event_of removed_by user member_removed (some target.role) none)
  notify_membership membership_revoked user none

unfoldable pub remove_group_participant : ℕ → ℕ → Exec Room (Unit {0})
unfolding remove_block
remove_group_participant user removed_by = atomic (remove_block user removed_by)

-- The end of `change_group_role`, where the role is another.
unfoldable pub write_role : ℕ → ℕ → ℕ → Role → Participant → Exec Room (Unit {0})
unfolding save_role audit_membership notify_membership
write_role now user changed_by role target = do
  save_role now user role target
  audit_membership (event_of changed_by user role_changed (some target.role) (some role))
  notify_membership membership_updated user (some role)

unfoldable pub change_block : ℕ → ℕ → ℕ → Role → Exec Room (Unit {0})
unfolding require_group get_membership write_role
change_block now user changed_by role = do
  require_group
  actor ← get_membership changed_by
  target ← get_membership user
  raise_membership_if (not (is_owner actor.role)) permission_denied
  raise_membership_if (is_owner target.role) ownership_transfer_required
  if same_role target.role role then pure tt else write_role now user changed_by role target

unfoldable pub change_group_role : ℕ → ℕ → ℕ → Role → Exec Room (Unit {0})
unfolding change_block
change_group_role now user changed_by owner = raise (membership invalid_role)
change_group_role now user changed_by role = atomic (change_block now user changed_by role)

unfoldable pub handover_block : ℕ → ℕ → ℕ → Exec Room (Unit {0})
unfolding require_group get_membership save_role audit_membership notify_membership
handover_block now target_user owner_user = do
  require_group
  current ← get_membership owner_user
  target ← get_membership target_user
  raise_membership_if (not (is_owner current.role)) permission_denied
  raise_membership_if (target_user == owner_user) invalid_transfer_target
  save_role now owner_user admin current
  save_role now target_user owner target
  audit_membership
      (event_of owner_user target_user ownership_transferred (some target.role) (some owner))
  notify_membership membership_updated owner_user (some admin)
  notify_membership membership_updated target_user (some owner)

unfoldable pub transfer_group_ownership : ℕ → ℕ → ℕ → Exec Room (Unit {0})
unfolding handover_block
transfer_group_ownership now target_user owner_user =
    atomic (handover_block now target_user owner_user)

unfoldable pub archive_room : ℕ → Option Role → Exec Room (Unit {0})
unfolding audit_membership
archive_room actor old_role = do
  modify (λ (r : Room). record r { status = archived })
  audit_membership (event_of actor actor room_archived old_role none)

unfoldable pub leave_block : ℕ → Exec Room (Unit {0})
unfolding require_group get_membership delete_participant audit_membership archive_room
    notify_membership
leave_block user = do
  require_group
  p ← get_membership user
  count ← gets (λ (r : Room). length r.participants)
  raise_membership_if (is_owner p.role && ltb 1 count) ownership_transfer_required
  delete_participant user
  audit_membership (event_of user user member_left (some p.role) none)
  if is_owner p.role then archive_room user (some p.role) else pure tt
  notify_membership membership_revoked user none

unfoldable pub leave_group : ℕ → Exec Room (Unit {0})
unfolding leave_block
leave_group user = atomic (leave_block user)

unfoldable pub archive_block : ℕ → Exec Room (Unit {0})
unfolding require_group get_membership archive_room
archive_block actor = do
  require_group
  p ← get_membership actor
  raise_membership_if (not (is_owner p.role)) permission_denied
  archive_room actor none

unfoldable pub archive_group : ℕ → Exec Room (Unit {0})
unfolding archive_block
archive_group actor = atomic (archive_block actor)

-- `remove_participant`, the entry that lets a user remove themselves.
unfoldable pub remove_participant : ℕ → ℕ → Exec Room (Unit {0})
remove_participant user removed_by =
    if removed_by == user then leave_group user else remove_group_participant user removed_by
