-- ===== src/Text/Laws.antt =====
-- What trimming keeps.
use theapp.Prelude.{◌≡◌, refl}
use theapp.Text.{trim_space}

trims_both_ends : trim_space "  admin role " ≡ "admin role"
unfolding trim_space
trims_both_ends = refl
