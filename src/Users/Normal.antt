-- ===== src/Users/Normal.antt =====
-- Users are stored, and found, by the normal form of their address.
use theapp.Prelude.{◌≡◌, ap, ◌∙◌, none}
use theapp.Errors.{ok}
use theapp.Action.Laws.{step-ok, pure-ok, check_valid-ok}
use theapp.Text.{trim_space}
use theapp.Pguser
use theapp.Org.Conv.{User, user_from_pg}
use theapp.Users.{
  UserCore, CreateUser, validate_create_user, create_user_to_pg, normal_address, create_user,
  user_by_email,
}

module _ {W : Type 0} (c : UserCore W) where
  -- A user who was created was stored with the lower-cased address without blanks around it, which is
  -- valid; and a later look at the address as it was given asks the store for that same address.
  pub created_users_are_found :
      (cu : CreateUser) (w w' v v' : W) (u found : User)
      → create_user c cu w ≡ (ok u, w')
      → user_by_email c cu.email v ≡ (ok found, v')
      → (row r : Pguser.User) × (validate_create_user c.parse_address
            (record { email = c.to_lower (trim_space cu.email); name = cu.name })
          ≡ none)
        × (c.user_storer.create_user
              (record { email = c.to_lower (trim_space cu.email); name = cu.name })
              w
            ≡ (ok row, w'))
        × (user_from_pg row ≡ u)
        × (c.user_storer.user_by_email (c.to_lower (trim_space cu.email)) v ≡ (ok r, v'))
        × (user_from_pg r ≡ found)
  unfolding create_user create_user_to_pg user_by_email normal_address
  created_users_are_found cu w w' v v' u found h k =
      let (valid, h1) = check_valid-ok _ _ w h in
      let (row, w1, e, h2) = step-ok _ _ _ w h1 in
      let (p, q) = pure-ok _ w1 h2 in
      let (r, v1, f, k1) = step-ok _ _ _ v k in
      let (a, b) = pure-ok _ v1 k1 in
      (row, r, valid, e ∙ ap (λ x. (ok row, x)) q, p, f ∙ ap (λ x. (ok r, x)) b, a)
