-- ===== src/Alpha/UserMaster/Tests.antt =====
-- A back process with one front and one user.
use play.Common.{ℕ, Bool, true, List, [], ◌∷◌}
use play.Common.Map.{nat_key, bytes_key}
use play.Alpha.Messages.{Frame, syn_logout}
use play.Alpha.UserMaster.{UserMaster, user_proxy, TopicFrame, auth_syn_login_b2f}

abbrev ann : List ℕ
ann = 97 ∷ 110 ∷ 110 ∷ []

abbrev no_bytes : Frame → List ℕ
no_bytes frame = 0 ∷ []

abbrev takes_all : ℕ → ℕ → List ℕ → Bool → Bool
takes_all se topic bytes encrypt = true

abbrev master : UserMaster
master = record {
  fronts = record { pulse = 3; sessions = (10, 10) ∷ (20, 20) ∷ [] };
  users = record {
    actors = (1, user_proxy 1 ann 51) ∷ [];
    names = (ann, 1) ∷ [];
    sessions = [];
    uuids = (51, 1) ∷ [];
  };
}

abbrev logged_out : List ℕ → TopicFrame
logged_out name = record { topic = auth_syn_login_b2f; frame = syn_logout name }
