-- ===== src/Lobby/Members.antt =====
-- The member rows of one room: who is in it, and what the writes do to it.
use realtime_game_server.Base.{
  ◌≤◌, ◌≡◌, refl, Bool, false, ◌||◌, List, [], ◌∷◌, ◌++◌, arith, Key, ◌==◌, if◌then◌else◌, length,
}
use realtime_game_server.Lobby.Rooms.{Member, has_member, new_member, delete_member, update_ready}

-- No player stands in a room twice.
abbrev pub Distinct : List Member → Type 0
Distinct [] = Unit
Distinct (m ∷ ms) = (has_member m.player_id ms ≡ false) × Distinct ms

pub has_member-append :
    (p q : Key) (ms : List Member)
    → has_member p (ms ++ new_member q ∷ []) ≡ (has_member p ms || q == p)
unfolding has_member
has_member-append p q [] = ground arith
has_member-append p q (m ∷ ms) = ground (arith, has_member-append p q ms)

pub has_member-delete_member :
    (p q : Key) (ms : List Member)
    → has_member p (delete_member q ms) ≡ (if q == p then false else has_member p ms)
unfolding has_member delete_member
has_member-delete_member p q [] = ground arith
has_member-delete_member p q (m ∷ ms) = ground (arith, has_member-delete_member p q ms)

pub has_member-update_ready :
    (p q : Key) (ready : Bool) (ms : List Member)
    → has_member p (update_ready q ready ms) ≡ has_member p ms
unfolding has_member update_ready
has_member-update_ready p q ready [] = refl
has_member-update_ready p q ready (m ∷ ms) = ground (arith, has_member-update_ready p q ready ms)

pub Distinct-append :
    (q : Key) (ms : List Member)
    → Distinct ms
    → has_member q ms ≡ false
    → Distinct (ms ++ new_member q ∷ [])
unfolding has_member
Distinct-append q [] h n = (refl, tt)
Distinct-append q (m ∷ ms) h n =
    (ground (arith, has_member-append m.player_id q ms), Distinct-append q ms h.1 (ground arith))

pub Distinct-delete_member :
    (q : Key) (ms : List Member) → Distinct ms → Distinct (delete_member q ms)
unfolding delete_member
Distinct-delete_member q [] h = tt
Distinct-delete_member q (m ∷ ms) h =
    ground (arith, Distinct-delete_member q ms h.1, has_member-delete_member m.player_id q ms)

pub Distinct-update_ready :
    (q : Key) (ready : Bool) (ms : List Member) → Distinct ms → Distinct (update_ready q ready ms)
unfolding update_ready
Distinct-update_ready q ready [] h = tt
Distinct-update_ready q ready (m ∷ ms) h =
    ground
      (arith, Distinct-update_ready q ready ms h.1, has_member-update_ready m.player_id q ready ms)

pub length-delete_member-le : (q : Key) (ms : List Member) → length (delete_member q ms) ≤ length ms
unfolding delete_member
length-delete_member-le q [] = omega arith
length-delete_member-le q (m ∷ ms) = ground (arith, length-delete_member-le q ms)

pub length-update_ready :
    (q : Key) (ready : Bool) (ms : List Member) → length (update_ready q ready ms) ≡ length ms
unfolding update_ready
length-update_ready q ready [] = refl
length-update_ready q ready (m ∷ ms) = ground (arith, length-update_ready q ready ms)
