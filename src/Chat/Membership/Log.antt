-- ===== src/Chat/Membership/Log.antt =====
-- The audit log of a group, read back: who is in the room, and in which role.
use asoud_backend_full.Prelude.{ℕ, ◌≡◌, refl, true, false, Option, some, List, [], ◌∷◌, arith, ap}
use asoud_backend_full.Table.{Table, update, remove, append}
use asoud_backend_full.Chat.Rooms.{
  Role, owner, admin, Participant, Room, MembershipAction, member_added, member_removed,
  member_left, role_changed, ownership_transferred, MembershipEvent,
}
use asoud_backend_full.Chat.Membership.Moves.{
  Move, stays, joins, goes, changes, hands_over, closes, archives,
}

-- The roles that the rows hold.
abbrev pub roles : Table Participant → Table Role
roles [] = []
roles ((user, p) ∷ t) = (user, p.role) ∷ roles t

-- What one event says of the roles.
unfoldable pub apply_event :
    MembershipAction → Option ℕ → Option ℕ → Option Role → Table Role → Table Role
apply_event member_added actor (some user) (some role) t = append user role t
apply_event member_removed actor (some user) role t = remove user t
apply_event member_left actor (some user) role t = remove user t
apply_event role_changed actor (some user) (some role) t = update user role t
apply_event ownership_transferred (some by) (some user) role t =
    update user owner (update by admin t)
apply_event _ _ _ _ t = t

-- The roles that the events tell, from the oldest on.
unfoldable pub replay : List MembershipEvent → Table Role
unfolding apply_event
replay [] = []
replay (event ∷ events) =
    apply_event event.action event.actor event.subject event.new_role (replay events)

abbrev pub IsLogged : Room → Type 0
IsLogged r = roles r.participants ≡ replay r.events

roles-append :
    (user : ℕ) (p : Participant) (t : Table Participant)
    → roles (append user p t) ≡ append user p.role (roles t)
unfolding append
roles-append user p [] = refl
roles-append user p ((j, x) ∷ t) = ap (λ (l : Table Role). (j, x.role) ∷ l) (roles-append user p t)

roles-remove : (user : ℕ) (t : Table Participant) → roles (remove user t) ≡ remove user (roles t)
unfolding remove
roles-remove user [] = refl
roles-remove user ((j, x) ∷ t) = ground (arith, roles-remove user t)

roles-update :
    (user : ℕ) (p : Participant) (t : Table Participant)
    → roles (update user p t) ≡ update user p.role (roles t)
unfolding update
roles-update user p [] = refl
roles-update user p ((j, x) ∷ t) = ground (arith, roles-update user p t)

module _ (r u : Room) where
  pub Move-IsLogged : Move r u → IsLogged r → IsLogged u
  unfolding replay apply_event
  Move-IsLogged (stays e) h = rw e h
  Move-IsLogged (joins user by p notices alive plain room e) h =
      rw (e, roles-append user p r.participants, h) refl
  Move-IsLogged (goes true user by p notices found plain e) h =
      rw (e, roles-remove user r.participants, h) refl
  Move-IsLogged (goes false user by p notices found plain e) h =
      rw (e, roles-remove user r.participants, h) refl
  Move-IsLogged (changes user by now role p notices found other plain e) h =
      let q : Participant = record p { role = role; role_updated_at = now } in
      rw (e, roles-update user q r.participants, h) refl
  Move-IsLogged (hands_over user by now p q notices found ours governs other e) h =
      let demoted : Participant = record q { role = admin; role_updated_at = now } in
      let promoted : Participant = record p { role = owner; role_updated_at = now } in
      rw
        (
          e,
          roles-update user promoted (update by demoted r.participants),
          roles-update by demoted r.participants,
          h,
        )
        refl
  Move-IsLogged (closes user p notices found few e) h =
      rw (e, roles-remove user r.participants, h) refl
  Move-IsLogged (archives by e) h = rw e h
