-- ===== src/Accounts/Sessions/Locks.antt =====
-- A revoked session of backend/app/services/settings_service.py, under changes of the tables.
use omni_ai_v.Prelude.{
  ℕ, ◌≡◌, refl, String, Bool, true, false, ◌&&◌, ◌||◌, not, Option, none, some, List, [], ◌∷◌,
  arith, ◌==◌, nat_comparable, text_comparable, is_empty, All, All-imp, Bool-cases, Option-cases,
  inl, inr, if◌then◌else◌,
}
use omni_ai_v.Rows.{find_first, update_where, delete_where, All-update_where}
use omni_ai_v.Accounts.{User, UserSessionRecord, Db, Env, is_user, ensure_user_settings}
use omni_ai_v.Accounts.Login.{
  is_session, is_active, revoke, touch, register_user_session, touch_user_session,
}
use omni_ai_v.Accounts.Revocation.{
  Rows, first_revoked, revoked-append, revoked-update, revoked-delete,
}

module _ (who : ℕ) (jti : String) where
  -- If it is this user, the first session with the token id is revoked.
  abbrev pub locked_user : Rows → User → Bool
  locked_user rows u = not (u.id == who) || first_revoked (is_session u.id jti) rows

  abbrev pub Locked : Db → Type 0
  Locked db = All (λ u. locked_user db.sessions u ≡ true) db.users

  abbrev pub Grows : Rows → Rows → Type 0
  Grows rows rows' =
      (id : ℕ)
      → first_revoked (is_session id jti) rows ≡ true
      → first_revoked (is_session id jti) rows' ≡ true

  pub locked-Grows :
      (rows rows' : Rows) (u : User)
      → Grows rows rows'
      → locked_user rows u ≡ true
      → locked_user rows' u ≡ true
  locked-Grows rows rows' u grows h = elim (Bool-cases (u.id == who)) [
    | inr e ↦ rw e refl
    | inl e ↦ rw e (grows u.id (rw e at h))
  ]

  pub Locked-Grows :
      (rows rows' : Rows) (users : List User)
      → Grows rows rows'
      → All (λ u. locked_user rows u ≡ true) users
      → All (λ u. locked_user rows' u ≡ true) users
  Locked-Grows rows rows' users grows h = All-imp users (λ u. locked-Grows rows rows' u grows) h

  pub Locked-save :
      (rows : Rows) (u : User) (users : List User) (k : ℕ)
      → locked_user rows u ≡ true
      → All (λ u. locked_user rows u ≡ true) users
      → All (λ u. locked_user rows u ≡ true) (update_where (is_user k) (λ x. u) users)
  Locked-save rows u users k own h =
      All-update_where (λ u. locked_user rows u ≡ true) (is_user k) (λ x. u) users (λ x p hit. own)
        h

  pub revoke-Grows :
      (q : UserSessionRecord → Bool) (now : ℕ) (rows : Rows)
      → Grows rows (update_where q (revoke now) rows)
  revoke-Grows q now rows id =
      revoked-update (is_session id jti) q (revoke now) rows (λ x. refl) (λ x h. refl)

  pub touch_user_session-Grows :
      (env : Env) (user_id : ℕ) (j : Option String) (db : Db)
      → (Grows db.sessions (touch_user_session env user_id j db).sessions)
        × ((touch_user_session env user_id j db).users ≡ db.users)
  unfolding touch_user_session
  touch_user_session-Grows env user_id none db = (λ id h. h, refl)
  touch_user_session-Grows env user_id (some j) db = elim (Bool-cases (is_empty j)) [
    | inl e ↦ rw e (λ id h. h, refl)
    | inr e ↦
        rw e
          (elim (Option-cases
            (find_first (λ r. is_session user_id j r && is_active r) db.sessions)) [
              | inl absent ↦ rw absent (λ id h. h, refl)
              | inr (r, found) ↦ rw found (
                λ id.
                    revoked-update (is_session id jti) (λ x. x.id == r.id) (touch env.now)
                      db.sessions (λ x. refl) (λ x h. h),
                refl,
              )
            ])
  ]

  pub Locked-without :
      (rows : Rows) (u : User) (users : List User)
      → All (λ u. locked_user rows u ≡ true) users
      → All
          (λ x. locked_user (delete_where (λ r. r.user_id == u.id) rows) x ≡ true)
          (delete_where (is_user u.id) users)
  unfolding delete_where
  Locked-without rows u [] h = tt
  Locked-without rows u (x ∷ users) h = elim (Bool-cases (x.id == u.id)) [
    | inl same ↦ rw same (Locked-without rows u users h.1)
    | inr other ↦ rw other (
      elim (Bool-cases (x.id == who)) [
        | inr e ↦ rw e refl
        | inl e ↦ rw e (
            revoked-delete (is_session x.id jti) (λ r. r.user_id == u.id) rows
              (λ r hit. ground (arith, other, hit)) (rw e at h.0))
      ],
      Locked-without rows u users h.1,
    )
  ]

  pub register_user_session-Grows :
      (env : Env) (u : User) (j : String) (hash : Option String) (expires : Option ℕ)
      (agent : String) (db : Db)
      → Grows db.sessions (register_user_session env u j hash expires agent db).1.sessions
  unfolding register_user_session ensure_user_settings
  register_user_session-Grows env u j hash expires agent db id h =
      revoked-append (is_session id jti) db.sessions _ h

  pub either {ℓ} :
      {A : Type ℓ} (b : Bool) (x y : A × Db)
      → Locked x.1
      → Locked y.1
      → Locked (if b then x else y).1
  either true x y h k = h
  either false x y h k = k
