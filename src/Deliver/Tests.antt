-- ===== src/Deliver/Tests.antt =====
-- The view of a concrete circuit.
use protocol_pfe.Base.{ℕ, ◌≤◌, ◌<◌, ◌≡◌, true, ok}
use protocol_pfe.Address.{rank_to_addr, addr_is_member}
use protocol_pfe.World.{CircuitView}
use protocol_pfe.Deliver.{fill_cv}
use protocol_pfe.Deliver.View.{fill_cv_lem}

fill_cv_example :
    (cv : CircuitView) × (fill_cv 137 ≡ ok cv)
    × (cv.cv_nmemb ≤ 16)
    × ((i : ℕ)
        → i < 16
        → addr_is_member (rank_to_addr i) 137 ≡ true
        → (k : ℕ) × (k < cv.cv_nmemb) × (cv.cv_members k ≡ rank_to_addr i))
    × ((k : ℕ) → k < cv.cv_nmemb → addr_is_member (cv.cv_members k) 137 ≡ true)
fill_cv_example = fill_cv_lem 137
