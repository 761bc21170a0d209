-- ===== src/Chat/Membership/Operations.antt =====
-- Every membership operation moves the room, or leaves it as it was.
use asoud_backend_full.Prelude.{ℕ, ◌≡◌, refl, inl, inr}
use asoud_backend_full.Exec.{Exec, atomic, ok, ended, atomic-err, atomic-eq-ok}
use asoud_backend_full.Chat.Rooms.{Room, Role, owner, admin, member}
use asoud_backend_full.Chat.Membership.{
  add_block, remove_block, change_block, handover_block, leave_block, archive_block,
  add_group_participant, remove_group_participant, change_group_role, transfer_group_ownership,
  leave_group, archive_group,
}
use asoud_backend_full.Chat.Membership.Moves.{Move, stays}
use asoud_backend_full.Chat.Membership.Blocks.{
  add_block-Move, remove_block-Move, change_block-Move, handover_block-Move, leave_block-Move,
  archive_block-Move,
}

-- A transaction moves the room when its block, where it returns, does.
atomic-Move :
    (m : Exec Room (Unit {0})) (r : Room)
    → ((u : Room) → m r ≡ (ok tt, u) → Move r u)
    → Move r (atomic m r).1
atomic-Move m r h = elim (ended (atomic m r)) [
  | inl (e, raised) ↦ stays (atomic-err m r raised)
  | inr (_, done) ↦ h (atomic m r).1 (atomic-eq-ok m r tt (atomic m r).1 done)
]

-- Every operation moves the room, by the limit of the platform at that moment.
module _ (r : Room) where
  pub add_group_participant-Move :
      (cap now user by : ℕ) (role : Role) → Move r (add_group_participant cap now user by role r).1
  unfolding add_group_participant
  add_group_participant-Move cap now user by owner = stays refl
  add_group_participant-Move cap now user by admin =
      atomic-Move (add_block cap now user by admin) r
        (λ u. add_block-Move r u cap now user by admin refl)
  add_group_participant-Move cap now user by member =
      atomic-Move (add_block cap now user by member) r
        (λ u. add_block-Move r u cap now user by member refl)

  pub remove_group_participant-Move : (user by : ℕ) → Move r (remove_group_participant user by r).1
  unfolding remove_group_participant
  remove_group_participant-Move user by =
      atomic-Move (remove_block user by) r (λ u. remove_block-Move r u user by)

  pub change_group_role-Move :
      (now user by : ℕ) (role : Role) → Move r (change_group_role now user by role r).1
  unfolding change_group_role
  change_group_role-Move now user by owner = stays refl
  change_group_role-Move now user by admin =
      atomic-Move (change_block now user by admin) r
        (λ u. change_block-Move r u now user by admin refl)
  change_group_role-Move now user by member =
      atomic-Move (change_block now user by member) r
        (λ u. change_block-Move r u now user by member refl)

  pub transfer_group_ownership-Move :
      (now user by : ℕ) → Move r (transfer_group_ownership now user by r).1
  unfolding transfer_group_ownership
  transfer_group_ownership-Move now user by =
      atomic-Move (handover_block now user by) r (λ u. handover_block-Move r u now user by)

  pub leave_group-Move : (user : ℕ) → Move r (leave_group user r).1
  unfolding leave_group
  leave_group-Move user = atomic-Move (leave_block user) r (λ u. leave_block-Move r u user)

  pub archive_group-Move : (by : ℕ) → Move r (archive_group by r).1
  unfolding archive_group
  archive_group-Move by = atomic-Move (archive_block by) r (λ u. archive_block-Move r u by)
