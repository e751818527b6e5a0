-- ===== src/Alpha/UserMaster/Logout.antt =====
-- What a logout comes to.
use play.Common.Map.{nat_key, bytes_key}
use play.Alpha.UserMaster.{UserMaster}
