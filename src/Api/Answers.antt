-- ===== src/Api/Answers.antt =====
-- What a handler answers when the service that it calls succeeds.
use realtime_game_server.Base.{ℕ, ◌≡◌, some, Key, arith}
use realtime_game_server.Base.Int.{ℤ}
use realtime_game_server.Base.Dict.{lookup}
use realtime_game_server.Base.Action.{ok, Action}
use realtime_game_server.Auth.Store
use realtime_game_server.Player
use realtime_game_server.Player.{Profile, get_profile}
use realtime_game_server.Economy
use realtime_game_server.Economy.{get_balance}
use realtime_game_server.Api.State.{World, Body, sent, answer, on_auth, on_players, on_economy}

module _ {W A : Type 0} where
  pub answer_ok :
      (status : ℕ) (body : A → Body) (m : Action (World W) A) (w w' : World W) (a : A)
      → m w ≡ (ok a, w')
      → answer status body m w ≡ (sent status (body a), w')
  answer_ok status body m w w' a e = ground (arith, e)

  pub on_auth_ok :
      (m : Action Store.Db A) (w : World W) (a : A) (db : Store.Db)
      → m w.auth ≡ (ok a, db)
      → on_auth m w ≡ (ok a, record w { auth = db })
  on_auth_ok m w a db e = ground (arith, e)

  pub on_players_ok :
      (m : Action Player.Db A) (w : World W) (a : A)
      → m w.players ≡ (ok a, w.players)
      → on_players m w ≡ (ok a, w)
  on_players_ok m w a e = ground (arith, e)

  pub on_economy_ok :
      (m : Action Economy.Db A) (w : World W) (a : A)
      → m w.economy ≡ (ok a, w.economy)
      → on_economy m w ≡ (ok a, w)
  on_economy_ok m w a e = ground (arith, e)

pub get_profile_ok :
    (id : Key) (p : Profile) (db : Player.Db)
    → lookup id db.players ≡ some p
    → get_profile id db ≡ (ok p, db)
unfolding get_profile
get_profile_ok id p db e = ground (arith, e)

pub get_balance_ok :
    (id : Key) (n : ℤ) (db : Economy.Db)
    → lookup id db.coins ≡ some n
    → get_balance id db ≡ (ok n, db)
unfolding get_balance
get_balance_ok id n db e = ground (arith, e)
