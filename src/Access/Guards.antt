-- ===== src/Access/Guards.antt =====
-- The guards and the roles of backend/app/core/rbac.py.
use omni_ai_v.Prelude.{
  ◌≤◌, ◌≡◌, refl, String, Bool, true, false, List, arith, ◌==◌, nat_comparable, text_comparable,
  Option-cases, inl, inr, beq_refl,
}
use omni_ai_v.Rows.{find_first, find_first_append}
use omni_ai_v.Access.{
  AppSettings, User, UserRole, role_rank, get_user_role, ensure_user_role, user_has_min_role, Guard,
  allowed, require_min_role,
}

abbrev pub is_allowed : Guard → Bool
is_allowed (allowed u) = true
is_allowed _ = false

-- A user who passes the guard of a role passes the guard of each lower one.
require_min_role_monotone :
    (lower : String → String) (settings : AppSettings) (db : List UserRole) (user : User)
    (high low : String)
    → role_rank low ≤ role_rank high
    → is_allowed (require_min_role lower settings db user high) ≡ true
    → is_allowed (require_min_role lower settings db user low) ≡ true
unfolding require_min_role user_has_min_role
require_min_role_monotone lower settings db user high low h passes = ground arith

-- A role that was ensured is the user's role from then on, and a second role changes nothing.
ensure_user_role_lem :
    (lower : String → String) (settings : AppSettings) (db : List UserRole) (user : User)
    (role other : String)
    → (get_user_role lower settings (ensure_user_role db user role).1 user
        ≡ (ensure_user_role db user role).0.role)
      × ((ensure_user_role (ensure_user_role db user role).1 user other).1
          ≡ (ensure_user_role db user role).1)
unfolding get_user_role ensure_user_role
ensure_user_role_lem lower settings db user role other =
    elim (Option-cases (find_first (λ r. r.user_id == user.id) db)) [
      | inr (r, found) ↦ rw found (rw found (refl, refl))
      | inl absent ↦
          let again =
            find_first_append (λ r. r.user_id == user.id) db
              (record { user_id = user.id; role = role }) absent (beq_refl user.id) in
          rw absent (rw again (refl, refl))
    ]
