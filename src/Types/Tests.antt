-- ===== src/Types/Tests.antt =====
-- Coordinates of concrete ids.
use udplb.Base.{pos, ◌≡◌, refl, [], ◌∷◌, replicate}
use udplb.Types.{BackendSpec, BackendStatus, new_backend, available, uint32_le}

abbrev spec : BackendSpec
spec = record {
  ip = 10 ∷ 0 ∷ 0 ∷ 1 ∷ [];
  port = pos 9000;
  mac_addr = replicate 6 0;
  state = available;
}

abbrev status : BackendStatus
status = record { state = available }

first_coordinate :
    (new_backend (1 ∷ 2 ∷ 0 ∷ 0 ∷ replicate 12 0) spec status).coordinates ≡ 513 ∷ 0 ∷ 0 ∷ 0 ∷ []
unfolding new_backend uint32_le
first_coordinate = refl
