-- ===== src/Alpha/RoomRunner/Tests.antt =====
-- A front process with one room.
use play.Common.{ℕ, List, [], ◌∷◌}
use play.Common.Tests.{◌==◌, if◌then◌else◌}
use play.Common.Outcome.{Outcome, ret, throws}
use play.Common.Map.{nat_key, bytes_key}
use play.App.ActorContainer.{Actor, init}
use play.Alpha.Messages.{RoomInfo}
use play.Alpha.Room.Capacity.{new_room}
use play.Alpha.RoomRunner.{RoomRunner, room_as_actor}

-- Texts of uuids begin with a dash here.
abbrev text : ℕ → List ℕ
text uuid = 45 ∷ uuid ∷ []

abbrev parsed : List ℕ → Outcome ℕ
parsed (dash ∷ uuid ∷ []) = if dash == 45 then ret uuid else throws
parsed _ = throws

abbrev hall : Actor
hall = room_as_actor 4 (104 ∷ []) 50

abbrev front : RoomRunner
front = record {
  rooms = record {
    actors = (4, hall) ∷ [];
    names = (104 ∷ [], 4) ∷ [];
    sessions = [];
    uuids = (50, 4) ∷ [];
  };
  states = (4, new_room (104 ∷ []) 3 (text 50)) ∷ [];
  pulse_front = 0;
  pulse_back = 8;
}

-- A runner that was started and has got a session with the back.
abbrev connected : RoomRunner
connected = record { rooms = init; states = []; pulse_front = 0; pulse_back = 8 }

ann_info : RoomInfo
ann_info = record { name = []; capacity = 0; current = 0; uuid = text 50 }
