-- ===== src/Chat/Membership/Capacity.antt =====
-- The number of participants of a group.
use asoud_backend_full.Prelude.{ℕ, suc, ◌≤◌, ◌≡◌, refl, [], ◌∷◌, length, arith}
use asoud_backend_full.Table.{Table, update, remove, append}
use asoud_backend_full.Chat.Rooms.{owner, admin, Participant, Room}
use asoud_backend_full.Chat.Membership.Moves.{
  Move, stays, joins, goes, changes, hands_over, closes, archives,
}

pub length-append_row :
    {V : Type 0} (k : ℕ) (v : V) (t : Table V) → length (append k v t) ≡ suc (length t)
unfolding append
length-append_row k v [] = refl
length-append_row k v ((j, x) ∷ t) = ground (arith, length-append_row k v t)

length-remove : {V : Type 0} (k : ℕ) (t : Table V) → length (remove k t) ≤ length t
unfolding remove
length-remove k [] = omega arith
length-remove k ((j, x) ∷ t) = ground (arith, length-remove k t)

length-update : {V : Type 0} (k : ℕ) (v : V) (t : Table V) → length (update k v t) ≡ length t
unfolding update
length-update k v [] = refl
length-update k v ((j, x) ∷ t) = ground (arith, length-update k v t)

-- The participants fit the room's limit, and that the platform's.
abbrev pub IsWithin : ℕ → Room → Type 0
IsWithin cap r = (length r.participants ≤ r.max_participants) × (r.max_participants ≤ cap)

module _ (cap : ℕ) (r u : Room) where
  pub Move-IsWithin : Move r u → IsWithin cap r → IsWithin cap u
  Move-IsWithin (stays e) h = rw e h
  Move-IsWithin (joins user by p notices alive plain room e) h =
      rw (e, length-append_row user p r.participants) (omega arith, h.1)
  Move-IsWithin (goes own user by p notices found plain e) h =
      rw e (omega (arith, length-remove user r.participants), h.1)
  Move-IsWithin (changes user by now role p notices found other plain e) h =
      let q : Participant = record p { role = role; role_updated_at = now } in
      rw (e, length-update user q r.participants) h
  Move-IsWithin (hands_over user by now p q notices found ours governs other e) h =
      let demoted : Participant = record q { role = admin; role_updated_at = now } in
      let promoted : Participant = record p { role = owner; role_updated_at = now } in
      rw
        (
          e,
          length-update user promoted (update by demoted r.participants),
          length-update by demoted r.participants,
        )
        h
  Move-IsWithin (closes user p notices found few e) h =
      rw e (omega (arith, length-remove user r.participants), h.1)
  Move-IsWithin (archives by e) h = rw e h
