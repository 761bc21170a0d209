-- ===== src/Chat/Membership/Blocks.antt =====
-- Every block of a membership operation that returns moves the room.
use asoud_backend_full.Prelude.{ℕ, ◌≡◌, true, false, none, some, ◌∷◌, arith, inl, inr, Bool-cases}
use asoud_backend_full.Exec.{ok}
use asoud_backend_full.Chat.Steps.{raise_if-eq-ok, gets-eq-ok, modify-eq-ok}
use asoud_backend_full.Table.{lookup}
use asoud_backend_full.Chat.Rooms.{
  Room, Role, owner, admin, Participant, membership_updated, membership_revoked, is_owner,
  same_role, audit_membership, notify_membership, create_participant, delete_participant,
}
use asoud_backend_full.Chat.Membership.{
  add_block, remove_block, write_role, change_block, handover_block, leave_block, archive_block,
}
use asoud_backend_full.Chat.Membership.Moves.{
  Move, stays, joins, goes, changes, hands_over, closes, archives,
}
use asoud_backend_full.Chat.Membership.Runs.{
  written, require_group-eq-ok, get_membership-eq-ok, save_role-eq-ok, archive_room-eq-ok,
  archive_room_written,
}

module _ (r u : Room) where
  pub add_block-Move :
      (cap now user by : ℕ) (role : Role)
      → is_owner role ≡ false
      → add_block cap now user by role r ≡ (ok tt, u)
      → Move r u
  unfolding add_block create_participant audit_membership notify_membership
  add_block-Move cap now user by role plain e =
      let (alive, e1) = require_group-eq-ok _ r e in
      let (_, _, e2) = get_membership-eq-ok by _ r e1 in
      let (_, e3) = raise_if-eq-ok _ _ _ e2 in
      let (_, e4) = raise_if-eq-ok _ _ _ e3 in
      let (_, e5) = raise_if-eq-ok _ _ _ (gets-eq-ok _ _ e4) in
      let (room, e6) = raise_if-eq-ok _ _ _ (gets-eq-ok _ _ e5) in
      let p : Participant = record { role = role; invited_by = some by; role_updated_at = now } in
      joins user by p ((membership_updated, user, some role) ∷ r.notices) alive plain (ground arith)
        (written (modify-eq-ok _ _ (modify-eq-ok _ _ e6)))

  pub remove_block-Move : (user by : ℕ) → remove_block user by r ≡ (ok tt, u) → Move r u
  unfolding remove_block delete_participant audit_membership notify_membership
  remove_block-Move user by e =
      let (_, e1) = require_group-eq-ok _ r e in
      let (_, _, e2) = get_membership-eq-ok by _ r e1 in
      let (p, found, e3) = get_membership-eq-ok user _ r e2 in
      let (plain, e4) = raise_if-eq-ok _ _ _ e3 in
      let (_, e5) = raise_if-eq-ok _ _ _ e4 in
      goes false user by p ((membership_revoked, user, none) ∷ r.notices) found plain
        (written (modify-eq-ok _ _ (modify-eq-ok _ _ e5)))

  write_role-Move :
      (now user by : ℕ) (role : Role) (p : Participant)
      → is_owner role ≡ false
      → lookup user r.participants ≡ some p
      → is_owner p.role ≡ false
      → write_role now user by role p r ≡ (ok tt, u)
      → Move r u
  unfolding write_role audit_membership notify_membership
  write_role-Move now user by role p plain found other e =
      changes user by now role p ((membership_updated, user, some role) ∷ r.notices) found other
        plain (written (modify-eq-ok _ _ (save_role-eq-ok now user role p _ r e)))

  pub change_block-Move :
      (now user by : ℕ) (role : Role)
      → is_owner role ≡ false
      → change_block now user by role r ≡ (ok tt, u)
      → Move r u
  unfolding change_block
  change_block-Move now user by role plain e =
      let (_, e1) = require_group-eq-ok _ r e in
      let (_, _, e2) = get_membership-eq-ok by _ r e1 in
      let (p, found, e3) = get_membership-eq-ok user _ r e2 in
      let (_, e4) = raise_if-eq-ok _ _ _ e3 in
      let (other, e5) = raise_if-eq-ok _ _ _ e4 in
      elim (Bool-cases (same_role p.role role)) [
        | inl same ↦ stays (written (rw same at e5))
        | inr new ↦ write_role-Move now user by role p plain found other (rw new at e5)
      ]

  pub handover_block-Move : (now user by : ℕ) → handover_block now user by r ≡ (ok tt, u) → Move r u
  unfolding handover_block audit_membership notify_membership
  handover_block-Move now user by e =
      let (_, e1) = require_group-eq-ok _ r e in
      let (q, ours, e2) = get_membership-eq-ok by _ r e1 in
      let (p, found, e3) = get_membership-eq-ok user _ r e2 in
      let (governs, e4) = raise_if-eq-ok _ _ _ e3 in
      let (other, e5) = raise_if-eq-ok _ _ _ e4 in
      let e6 = save_role-eq-ok now by admin q _ r e5 in
      let e7 = save_role-eq-ok now user owner p _ _ e6 in
      hands_over user by now p q
        ((membership_updated, user, some owner) ∷ (membership_updated, by, some admin) ∷ r.notices)
        found ours (ground arith) other (written (modify-eq-ok _ _ (modify-eq-ok _ _ e7)))

  pub leave_block-Move : (user : ℕ) → leave_block user r ≡ (ok tt, u) → Move r u
  unfolding leave_block delete_participant audit_membership notify_membership
  leave_block-Move user e =
      let (_, e1) = require_group-eq-ok _ r e in
      let (p, found, e2) = get_membership-eq-ok user _ r e1 in
      let (few, e3) = raise_if-eq-ok _ _ _ (gets-eq-ok _ _ e2) in
      let e4 = modify-eq-ok _ _ (modify-eq-ok _ _ e3) in
      elim (Bool-cases (is_owner p.role)) [
        | inl governs ↦
            closes user p ((membership_revoked, user, none) ∷ r.notices) found (ground arith)
              (written (archive_room-eq-ok user (some p.role) _ _ (rw governs at e4)))
        | inr plain ↦
            goes true user user p ((membership_revoked, user, none) ∷ r.notices) found plain
              (written (modify-eq-ok (λ t. t) _ (rw plain at e4)))
      ]

  pub archive_block-Move : (by : ℕ) → archive_block by r ≡ (ok tt, u) → Move r u
  unfolding archive_block
  archive_block-Move by e =
      let (_, e1) = require_group-eq-ok _ r e in
      let (_, _, e2) = get_membership-eq-ok by _ r e1 in
      let (_, e3) = raise_if-eq-ok _ _ _ e2 in archives by (archive_room_written by none r e3)
