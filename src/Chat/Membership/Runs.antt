-- ===== src/Chat/Membership/Runs.antt =====
-- The parts of a membership operation that returned, taken off one by one.
use asoud_backend_full.Prelude.{
  ℕ, ◌≡◌, Bool, true, false, ◌&&◌, Option, none, some, ◌∷◌, any, arith,
}
use asoud_backend_full.Exec.{Exec, Result, ok}
use asoud_backend_full.Chat.Steps.{◌>>=◌, ◌>>◌, modify-eq-ok, read-eq-ok}
use asoud_backend_full.Table.{lookup, update}
use asoud_backend_full.Chat.Rooms.{
  Room, Role, Participant, room_archived, archived, is_owner, is_other_owner, event_of,
  require_group, is_active_room, get_membership, audit_membership, save_participant, save_role,
}
use asoud_backend_full.Chat.Membership.{archive_room}

-- The rows that a block wrote.
pub written : {w : Result (Unit {0}) × Room} {u : Room} → w ≡ (ok tt, u) → u ≡ w.1
written h = cc

-- The guards of every block.
pub require_group-eq-ok :
    {B : Type 0} {b : B} {u : Room} (k : Exec Room B) (r : Room)
    → (require_group >> k) r ≡ (ok b, u)
    → (is_active_room r.status ≡ true) × (k r ≡ (ok b, u))
unfolding require_group ◌>>◌
require_group-eq-ok k r h = ground arith

pub get_membership-eq-ok :
    {B : Type 0} {b : B} {u : Room} (user : ℕ) (f : Participant → Exec Room B) (r : Room)
    → (get_membership user >>= f) r ≡ (ok b, u)
    → (p : Participant) × (lookup user r.participants ≡ some p) × (f p r ≡ (ok b, u))
unfolding get_membership
get_membership-eq-ok user f r h = read-eq-ok _ _ _ h

module _ {u : Room} where
  save_participant-eq-ok :
      (clash : Bool) (user : ℕ) (p : Participant) (k : Exec Room (Unit {0})) (r : Room)
      → (save_participant clash user p >> k) r ≡ (ok tt, u)
      → k (record r { participants = update user p r.participants }) ≡ (ok tt, u)
  unfolding save_participant ◌>>◌
  save_participant-eq-ok true user p k r h = absurd (cc)
  save_participant-eq-ok false user p k r h = h

  pub save_role-eq-ok :
      (now user : ℕ) (role : Role) (p : Participant) (k : Exec Room (Unit {0})) (r : Room)
      → (save_role now user role p >> k) r ≡ (ok tt, u)
      → k (record r {
        participants = update user (record p { role = role; role_updated_at = now }) r.participants;
      })
        ≡ (ok tt, u)
  unfolding save_role ◌>>◌
  save_role-eq-ok now user role p k r h =
      save_participant-eq-ok (is_owner role && any (is_other_owner user) r.participants) user
        (record p { role = role; role_updated_at = now }) k r h

  pub archive_room_written :
      (user : ℕ) (role : Option Role) (r : Room)
      → archive_room user role r ≡ (ok tt, u)
      → u ≡ record r {
        status = archived;
        events = event_of user user room_archived role none ∷ r.events;
      }
  unfolding archive_room audit_membership
  archive_room_written user role r h = written (modify-eq-ok _ _ h)

  pub archive_room-eq-ok :
      (user : ℕ) (role : Option Role) (k : Exec Room (Unit {0})) (r : Room)
      → (archive_room user role >> k) r ≡ (ok tt, u)
      → k (record r {
        status = archived;
        events = event_of user user room_archived role none ∷ r.events;
      })
        ≡ (ok tt, u)
  unfolding archive_room audit_membership ◌>>◌
  archive_room-eq-ok user role k r h = h
