-- ===== src/Alpha/Room/Tests.antt =====
-- A room of three places.
use play.Common.{ℕ, List, [], ◌∷◌}
use play.Common.Map.{nat_key, bytes_key}
use play.Alpha.Room.{RoomActor}
use play.Alpha.Room.Capacity.{new_room}

abbrev ann : List ℕ
ann = 97 ∷ 110 ∷ 110 ∷ []

abbrev hall : RoomActor
hall = new_room (104 ∷ []) 3 (117 ∷ [])
