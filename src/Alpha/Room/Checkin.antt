-- ===== src/Alpha/Room/Checkin.antt =====
-- What a reservation in a room is good for.
use play.Common.Map.{nat_key, bytes_key}
