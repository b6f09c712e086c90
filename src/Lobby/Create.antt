-- ===== src/Lobby/Create.antt =====
-- Creating a room: the code that is drawn, and the new room.
use realtime_game_server.Base.{
  ℕ, zero, suc, ◌+◌, ◌≤◌, ◌<◌, ◌≡◌, refl, ap, ◌∙◌, ◌⊎◌, Bool, true, false, Option, none, [], ◌∷◌,
  inl, inr, arith, Key, ◌==◌, is_some, get_or, Bool-cases,
}
use realtime_game_server.Base.Dict.{lookup, lookup-insert, insert-IsMap}
use realtime_game_server.Lobby.Rooms
use realtime_game_server.Lobby.Rooms.{
  Db, Room, waiting, is_active, has_member, new_member, write_room, room_by_player,
  find_by_player_id, find_by_code,
}
use realtime_game_server.Lobby.Seats.{seats-insert_new, seats-room_by_player-none}
use realtime_game_server.Lobby.Invariant.{IsValid, new_room-valid}
use realtime_game_server.Lobby.Service.{Settings, pick_code, code_attempts, create_room}

abbrev pub is_taken : (ℕ → Key) → Db → ℕ → Bool
is_taken codes db k = is_some (find_by_code (codes k) db)

-- If one of the codes that the loop checks is free, the code that it picks is free.
pub pick_code_free :
    (codes : ℕ → Key) (db : Db) (attempts k n : ℕ)
    → n < attempts
    → is_taken codes db (k + n) ≡ false
    → is_some (find_by_code (pick_code codes attempts k db) db) ≡ false
unfolding pick_code
pick_code_free codes db zero k n h f = absurd (omega arith)
pick_code_free codes db (suc attempts) k zero h f =
    let e : k + 0 ≡ k = omega arith in
    let free : is_taken codes db k ≡ false = rw e at f in rw free free
pick_code_free codes db (suc attempts) k (suc n) h f =
    let e : k + suc n ≡ suc k + n = omega arith in
    let free : is_taken codes db (suc k + n) ≡ false = rw e at f in
    elim (Bool-cases (is_taken codes db k)) [
      | inl taken ↦ rw taken (pick_code_free codes db attempts (suc k) n (omega arith) free)
      | inr free' ↦ rw free' free'
    ]

-- If every code that the loop checks is taken, the last draw is used as it comes.
pub pick_code_exhausted :
    (codes : ℕ → Key) (db : Db) (attempts k : ℕ)
    → ((i : ℕ) → i < attempts → is_taken codes db (k + i) ≡ true)
    → pick_code codes attempts k db ≡ codes (k + attempts)
unfolding pick_code
pick_code_exhausted codes db zero k t = ap codes (omega arith)
pick_code_exhausted codes db (suc attempts) k t =
    let e : k + 0 ≡ k = omega arith in
    let taken : is_taken codes db k ≡ true = rw e at (t 0 (omega arith)) in
    let next : (i : ℕ) → i < attempts → is_taken codes db (suc k + i) ≡ true =
      λ i h. let e' : k + suc i ≡ suc k + i = omega arith in rw e' at (t (suc i) (omega arith)) in
    rw taken (pick_code_exhausted codes db attempts (suc k) next ∙ ap codes (omega arith))

abbrev pub fresh_room : Key → Key → Key → ℕ → Key → Room
fresh_room id host_id name capacity code = record {
  id = id;
  code = code;
  name = name;
  host_id = host_id;
  max_players = capacity;
  status = waiting;
  members = new_member host_id ∷ [];
}

module _ (env : Settings) (codes : ℕ → Key) (id host_id name : Key) (max_players : Option ℕ)
    (db : Db) where
  abbrev capacity : ℕ
  capacity = get_or max_players env.max_players_per_room

  abbrev drawn : Key
  drawn = pick_code codes code_attempts 0 db

  create_room_cases :
      ((create_room env codes id host_id name max_players db).1 ≡ db)
      ⊎ ((room_by_player host_id db ≡ none)
          × (2 ≤ capacity)
          × (capacity ≤ env.max_players_per_room)
          × ((create_room env codes id host_id name max_players db).1
              ≡ write_room (fresh_room id host_id name capacity drawn) db))
  unfolding create_room Rooms.create find_by_player_id
  create_room_cases = ground arith

  -- with an id that no room has, which is what a uuid is for
  pub create_room-IsValid :
      lookup id db.rooms ≡ none
      → IsValid db
      → IsValid (create_room env codes id host_id name max_players db).1
  create_room-IsValid unused v = elim create_room_cases [
    | inl same ↦ rw same v
    | inr (free, two, fits, written) ↦
        let r = fresh_room id host_id name capacity drawn in
        rw written (record {
          rooms_map = insert-IsMap id r db.rooms v.rooms_map;
          keyed = λ k x e. ground (arith, lookup-insert id k r db.rooms, v.keyed k x);
          valid = λ k x e. elim (Bool-cases (id == k)) [
            | inl same ↦
                let h : r ≡ x = ground (arith, lookup-insert id k r db.rooms) in
                rw (← h) (new_room-valid r refl refl (omega arith))
            | inr other ↦ v.valid k x (ground (arith, lookup-insert id k r db.rooms))
          ];
          one_room = λ p.
              unfold has_member in
              ground (
                arith,
                seats-insert_new p id r db.rooms unused,
                v.one_room p,
                seats-room_by_player-none host_id db free,
              );
        })
  ]
