-- ===== src/Chat/Groups.antt =====
-- Every group that the service can make, by any sequence of its operations.
use asoud_backend_full.Prelude.{
  ℕ, ◌+◌, ◌≤◌, ◌<◌, ◌≡◌, refl, ◌||◌, none, some, is_some, List, [], ◌∷◌, ltb, ◌==◌, length, arith,
  inl, inr, Bool-cases,
}
use asoud_backend_full.Exec.{ok}
use asoud_backend_full.Table.{lookup, append, total}
use asoud_backend_full.Chat.Rooms.{
  active, group, Role, member, Participant, Room, member_added, event_of,
}
use asoud_backend_full.Chat.Membership.{
  add_group_participant, change_group_role, transfer_group_ownership, leave_group, archive_group,
  remove_participant,
}
use asoud_backend_full.Chat.Membership.Moves.{Move, joins}
use asoud_backend_full.Chat.Membership.Operations.{
  add_group_participant-Move, remove_group_participant-Move, change_group_role-Move,
  transfer_group_ownership-Move, leave_group-Move, archive_group-Move,
}
use asoud_backend_full.Chat.Membership.Governed.{IsGoverned, Move-IsGoverned}
use asoud_backend_full.Chat.Membership.Log.{IsLogged, replay, apply_event, Move-IsLogged}
use asoud_backend_full.Chat.Membership.Capacity.{IsWithin, Move-IsWithin, length-append_row}
use asoud_backend_full.Chat.Creation.{
  unique_participants, new_room, join_room, join_creator, join_participant, join_all, create_group,
  create_chat_room,
}

-- A group that `create_chat_room` made for a user, after any calls of the service.
pub data GroupRoom (cap : ℕ) : Room → Type 0 where
  created :
      (now creator : ℕ) (users : List ℕ) (limit : ℕ) (r : Room)
      → create_chat_room cap now group (some creator) users limit ≡ ok r
      → GroupRoom cap r
  added :
      {r : Room} (now user by : ℕ) (role : Role)
      → GroupRoom cap r
      → GroupRoom cap (add_group_participant cap now user by role r).1
  removed :
      {r : Room} (user by : ℕ) → GroupRoom cap r → GroupRoom cap (remove_participant user by r).1
  changed :
      {r : Room} (now user by : ℕ) (role : Role)
      → GroupRoom cap r
      → GroupRoom cap (change_group_role now user by role r).1
  transferred :
      {r : Room} (now user by : ℕ)
      → GroupRoom cap r
      → GroupRoom cap (transfer_group_ownership now user by r).1
  left : {r : Room} (user : ℕ) → GroupRoom cap r → GroupRoom cap (leave_group user r).1
  archived_by : {r : Room} (by : ℕ) → GroupRoom cap r → GroupRoom cap (archive_group by r).1

-- What the moves keep holds of every group, when it holds of a new one.
pub data Moved (s : Room) : Room → Type 0 where
  here : Moved s s
  next : {r u : Room} → Moved s r → Move r u → Moved s u

Moved-keeps :
    (P : Room → Type 0)
    → ((r u : Room) → Move r u → P r → P u)
    → {s u : Room} → Moved s u
    → P s
    → P u
Moved-keeps P keeps here p = p
Moved-keeps P keeps (next m step) p = keeps _ _ step (Moved-keeps P keeps m p)

Moved-trans : {r s u : Room} → Moved r s → Moved s u → Moved r u
Moved-trans m here = m
Moved-trans m (next n step) = next (Moved-trans m n) step

-- The room with its creator, before the others join.
abbrev founded : ℕ → ℕ → ℕ → Room
founded now creator limit = join_creator now (some creator) (new_room group limit)

module _ (now creator : ℕ) where
  join_room-event :
      (user : ℕ) (r : Room)
      → r.room_type ≡ group
      → join_room now (some creator) (some creator) user member r ≡ record r {
        participants =
            append user
              (record { role = member; invited_by = some creator; role_updated_at = now })
              r.participants;
        events = event_of creator user member_added none (some member) ∷ r.events;
      }
  unfolding join_room
  join_room-event user r g = rw g refl

  join_all-Moved :
      (users : List ℕ) (r : Room)
      → r.room_type ≡ group
      → r.status ≡ active
      → length r.participants + length users ≤ r.max_participants
      → Moved r (join_all now (some creator) users r)
  unfolding join_all join_participant
  join_all-Moved [] r g a h = here
  join_all-Moved (user ∷ users) r g a h =
      elim (Bool-cases ((creator == user) || is_some (lookup user r.participants))) [
        | inl known ↦ rw known (join_all-Moved users r g a (omega arith))
        | inr new ↦
            let p : Participant = record {
              role = member;
              invited_by = some creator;
              role_updated_at = now;
            } in
            let u : Room = record r {
              participants = append user p r.participants;
              events = event_of creator user member_added none (some member) ∷ r.events;
            } in
            let room = length-append_row user p r.participants in
            let fits : length u.participants + length users ≤ u.max_participants =
              omega (arith, room) in
            let step : Move r u =
              joins user creator p r.notices (rw a refl) refl (omega arith) refl in
            let same : join_participant now (some creator) user r ≡ u =
              rw new (join_room-event user r g) in
            rw same (Moved-trans (next here step) (join_all-Moved users u g a fits))
      ]

create_group-Moved :
    (cap now creator : ℕ) (users : List ℕ) (limit : ℕ) (r : Room)
    → create_chat_room cap now group (some creator) users limit ≡ ok r
    → Moved (founded now creator limit) r × (1 < limit) × (limit ≤ cap)
unfolding create_chat_room create_group join_creator join_room append
create_group-Moved cap now creator users limit r h =
    let others = unique_participants (some creator) [] users in
    elim (Bool-cases (ltb limit 2 || ltb cap limit)) [
      | inl e ↦ absurd (cc (rw e at h))
      | inr fits ↦ elim (Bool-cases (ltb limit (length others + 1))) [
        | inl e ↦ absurd (cc (rw (fits, e) at h))
        | inr room ↦
            let made : r ≡ join_all now (some creator) others (founded now creator limit) =
              cc (rw (fits, room) at h) in
            rw made (
              join_all-Moved now creator others (founded now creator limit) refl refl
                  (ground arith),
              ground arith,
              ground arith,
            )
      ]
    ]

remove_participant-Move : (user by : ℕ) (r : Room) → Move r (remove_participant user by r).1
unfolding remove_participant
remove_participant-Move user by r = elim (Bool-cases (by == user)) [
  | inl e ↦ rw e (leave_group-Move r user)
  | inr e ↦ rw e (remove_group_participant-Move r user by)
]

-- A predicate that holds of a founded room and that the moves keep holds of every group.
GroupRoom-keeps :
    (cap : ℕ) (P : Room → Type 0)
    → ((r u : Room) → Move r u → P r → P u)
    → ((now creator limit : ℕ) → 1 < limit → limit ≤ cap → P (founded now creator limit))
    → {r : Room} → GroupRoom cap r
    → P r
GroupRoom-keeps cap P keeps begin (created now creator users limit r h) =
    let (moved, two, most) = create_group-Moved cap now creator users limit r h in
    Moved-keeps P keeps moved (begin now creator limit two most)
GroupRoom-keeps cap P keeps begin (added {r = r} now user by role g) =
    keeps _ _ (add_group_participant-Move r cap now user by role)
      (GroupRoom-keeps cap P keeps begin g)
GroupRoom-keeps cap P keeps begin (removed {r = r} user by g) =
    keeps _ _ (remove_participant-Move user by r) (GroupRoom-keeps cap P keeps begin g)
GroupRoom-keeps cap P keeps begin (changed {r = r} now user by role g) =
    keeps _ _ (change_group_role-Move r now user by role) (GroupRoom-keeps cap P keeps begin g)
GroupRoom-keeps cap P keeps begin (transferred {r = r} now user by g) =
    keeps _ _ (transfer_group_ownership-Move r now user by) (GroupRoom-keeps cap P keeps begin g)
GroupRoom-keeps cap P keeps begin (left {r = r} user g) =
    keeps _ _ (leave_group-Move r user) (GroupRoom-keeps cap P keeps begin g)
GroupRoom-keeps cap P keeps begin (archived_by {r = r} by g) =
    keeps _ _ (archive_group-Move r by) (GroupRoom-keeps cap P keeps begin g)

-- In every group that the service makes for a user, after any sequence of additions, removals,
-- departures, changes of role, transfers and archivings, whether they return or raise, there is
-- one owner, or the room is archived and nobody is left in it.
pub groups-IsGoverned : (cap : ℕ) {r : Room} → GroupRoom cap r → IsGoverned r
unfolding join_creator join_room append total
groups-IsGoverned cap g =
    GroupRoom-keeps cap IsGoverned Move-IsGoverned (λ now creator limit two most. inl refl) g

-- In every group that the service makes for a user, after any sequence of its operations, the
-- audit log, replayed from the oldest event on, gives the participants in their order, each with
-- their present role.
pub groups-IsLogged : (cap : ℕ) {r : Room} → GroupRoom cap r → IsLogged r
unfolding join_creator join_room append replay apply_event
groups-IsLogged cap g =
    GroupRoom-keeps cap IsLogged Move-IsLogged (λ now creator limit two most. refl) g

-- In every group that the service makes for a user, after any sequence of its operations, the
-- participants are at most as many as the room's own limit, and that limit is at most the
-- platform's.
pub groups-IsWithin : (cap : ℕ) {r : Room} → GroupRoom cap r → IsWithin cap r
unfolding join_creator join_room append
groups-IsWithin cap g =
    GroupRoom-keeps cap (IsWithin cap) (Move-IsWithin cap)
      (λ now creator limit two most. (omega arith, most)) g
