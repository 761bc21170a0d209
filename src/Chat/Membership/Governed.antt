-- ===== src/Chat/Membership/Governed.antt =====
-- The governance of a group: an owner, until nobody is left.
use asoud_backend_full.Prelude.{
  ℕ, ◌≤◌, ◌≡◌, refl, ◌∙◌, ◌⊎◌, inl, inr, [], ◌∷◌, length, arith, some, if◌then◌else◌,
}
use asoud_backend_full.Table.{
  Table, lookup, update, remove, total, total-update, total-remove, total-append, lookup-update_ne,
}
use asoud_backend_full.Chat.Rooms.{owner, admin, Participant, Room, archived, is_owner}
use asoud_backend_full.Chat.Membership.Moves.{
  Move, stays, joins, goes, changes, hands_over, closes, archives,
}

abbrev owner_one : Participant → ℕ
owner_one p = if is_owner p.role then 1 else 0

abbrev pub owners : Table Participant → ℕ
owners = total owner_one

-- There is one owner, or the room is archived and empty.
abbrev pub IsGoverned : Room → Type 0
IsGoverned r = (owners r.participants ≡ 1) ⊎ ((r.participants ≡ []) × (r.status ≡ archived))

remove_last :
    {p : Participant} (user : ℕ) (t : Table Participant)
    → lookup user t ≡ some p
    → length t ≤ 1
    → remove user t ≡ []
unfolding lookup remove
remove_last user [] found few = cc
remove_last user ((j, x) ∷ []) found few = ground arith
remove_last user (_ ∷ _ ∷ _) found few = absurd (omega arith)

-- Nobody is found in an empty room.
not_empty :
    {p : Participant} (user : ℕ) (t : Table Participant) → lookup user t ≡ some p → ¬ (t ≡ [])
unfolding lookup
not_empty user t found e = absurd (cc (rw e at found))

module _ (r u : Room) where
  pub Move-IsGoverned : Move r u → IsGoverned r → IsGoverned u
  Move-IsGoverned (stays e) h = rw e h
  Move-IsGoverned (joins user by p notices alive plain room e) h = elim h [
    | inl one ↦
        let count = total-append owner_one user p r.participants in
        rw e (inl (ground (arith, count)))
    | inr (_, over) ↦ absurd (ground arith)
  ]
  Move-IsGoverned (goes own user by p notices found plain e) h = elim h [
    | inl one ↦
        let count = total-remove owner_one user r.participants p found in
        rw e (inl (ground (arith, count)))
    | inr (empty, _) ↦ absurd (not_empty user r.participants found empty)
  ]
  Move-IsGoverned (changes user by now role p notices found other plain e) h = elim h [
    | inl one ↦
        let q : Participant = record p { role = role; role_updated_at = now } in
        let count = total-update owner_one user q r.participants p found in
        rw e (inl (ground (arith, count)))
    | inr (empty, _) ↦ absurd (not_empty user r.participants found empty)
  ]
  Move-IsGoverned (hands_over user by now p q notices found ours governs other e) h = elim h [
    | inl one ↦
        let t = update by (record q { role = admin; role_updated_at = now }) r.participants in
        let demoted =
          total-update owner_one by (record q { role = admin; role_updated_at = now })
            r.participants q ours in
        let still =
          lookup-update_ne user by (record q { role = admin; role_updated_at = now }) r.participants
            (ground arith) in
        let others = total-remove owner_one user t p (still ∙ found) in
        let promoted =
          total-update owner_one user (record p { role = owner; role_updated_at = now }) t p
            (still ∙ found) in
        rw e (inl (ground (arith, demoted, others, promoted)))
    | inr (empty, _) ↦ absurd (not_empty user r.participants found empty)
  ]
  Move-IsGoverned (closes user p notices found few e) h =
      rw e (inr (remove_last user r.participants found few, refl))
  Move-IsGoverned (archives by e) h = elim h [
    | inl one ↦ rw e (inl one)
    | inr (empty, _) ↦ rw e (inr (empty, refl))
  ]
