-- ===== src/Game/Protocol.antt =====
-- src/infrastructure/websocket/protocol.ts: the messages of the WebSocket protocol.
use realtime_game_server.Base.{ℕ, String, Option, List, Key}
use realtime_game_server.Game.Vec3.{Vec3}
use realtime_game_server.Game.Snapshot.{PlayerSnapshot, Patch}

-- a message that the schema has accepted
pub data ClientMessage (W : Type 0) : Type 0 where
  join_session : (room_id : Key) → (reconnect_token : Option Key) → ClientMessage W
  input : (seq : ℕ) → (dt : W) → (move look : Vec3 W) → ClientMessage W
  ping : (client_time : ℕ) → ClientMessage W
  heartbeat : ClientMessage W
  request_snapshot : ClientMessage W

pub record FullSnapshotMessage (W : Type 0) : Type 0 where
  pub tick : ℕ
  pub server_time : ℕ
  pub players : List (PlayerSnapshot W)

pub record DeltaSnapshotMessage (W : Type 0) : Type 0 where
  pub tick : ℕ
  pub server_time : ℕ
  pub base_tick : ℕ
  pub changes : List (Patch W)
  pub removed : List Key

pub data ServerMessage (W : Type 0) : Type 0 where
  snapshot : FullSnapshotMessage W → ServerMessage W
  delta : DeltaSnapshotMessage W → ServerMessage W
  pong : (client_time server_time : ℕ) → ServerMessage W
  error : (code message : String) → ServerMessage W
  joined : (room_id player_id : Key) → (tick : ℕ) → (reconnect_token : Key) → ServerMessage W
  input_ack : (seq tick : ℕ) → ServerMessage W
  heartbeat : ServerMessage W
