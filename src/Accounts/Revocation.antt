-- ===== src/Accounts/Revocation.antt =====
-- The first session of a test and its revocation, under what the services do to the table
-- (backend/app/services/settings_service.py).
use omni_ai_v.Prelude.{
  ℕ, ◌≡◌, refl, Bool, true, false, some, List, [], ◌∷◌, ◌++◌, nat_comparable, text_comparable,
  is_some, Bool-cases, inl, inr,
}
use omni_ai_v.Rows.{find_first, update_where, delete_where}
use omni_ai_v.Accounts.{UserSessionRecord}
use omni_ai_v.Accounts.Login.{is_revoked, revoke}

abbrev pub Rows : Type 0
Rows = List UserSessionRecord

abbrev pub first_revoked : (UserSessionRecord → Bool) → Rows → Bool
first_revoked p rows = is_revoked (find_first p rows)

pub revoked-append :
    (p : UserSessionRecord → Bool) (xs ys : Rows)
    → first_revoked p xs ≡ true
    → first_revoked p (xs ++ ys) ≡ true
unfolding find_first
revoked-append p [] ys h = absurd (cc h)
revoked-append p (x ∷ xs) ys h = elim (Bool-cases (p x)) [
  | inl e ↦ rw e (rw e at h)
  | inr e ↦ rw e (revoked-append p xs ys (rw e at h))
]

-- An update that leaves the owner, the token id and each revocation.
pub revoked-update :
    (p q : UserSessionRecord → Bool) (f : UserSessionRecord → UserSessionRecord) (xs : Rows)
    → ((x : UserSessionRecord) → p (f x) ≡ p x)
    → ((x : UserSessionRecord) → is_some x.revoked_at ≡ true → is_some (f x).revoked_at ≡ true)
    → first_revoked p xs ≡ true
    → first_revoked p (update_where q f xs) ≡ true
unfolding find_first update_where
revoked-update p q f [] same keeps h = absurd (cc h)
revoked-update p q f (x ∷ xs) same keeps h = elim (Bool-cases (q x)) [
  | inl hit ↦ elim (Bool-cases (p x)) [
    | inl e ↦ rw hit (rw (same x) (rw e (keeps x (rw e at h))))
    | inr e ↦ rw hit (rw (same x) (rw e (revoked-update p q f xs same keeps (rw e at h))))
  ]
  | inr miss ↦ elim (Bool-cases (p x)) [
    | inl e ↦ rw (miss, e) (rw e at h)
    | inr e ↦ rw (miss, e) (revoked-update p q f xs same keeps (rw e at h))
  ]
]

pub revoked-delete :
    (p q : UserSessionRecord → Bool) (xs : Rows)
    → ((x : UserSessionRecord) → q x ≡ true → p x ≡ false)
    → first_revoked p xs ≡ true
    → first_revoked p (delete_where q xs) ≡ true
unfolding find_first delete_where
revoked-delete p q [] out h = absurd (cc h)
revoked-delete p q (x ∷ xs) out h = elim (Bool-cases (q x)) [
  | inl hit ↦ rw hit (revoked-delete p q xs out (rw (out x hit) at h))
  | inr miss ↦ elim (Bool-cases (p x)) [
    | inl e ↦ rw (miss, e) (rw e at h)
    | inr e ↦ rw (miss, e) (revoked-delete p q xs out (rw e at h))
  ]
]

pub revoked-found :
    (p q : UserSessionRecord → Bool) (now : ℕ) (xs : Rows) {r : UserSessionRecord}
    → ((x : UserSessionRecord) → p (revoke now x) ≡ p x)
    → find_first p xs ≡ some r
    → q r ≡ true
    → first_revoked p (update_where q (revoke now) xs) ≡ true
unfolding find_first update_where
revoked-found p q now [] same e hit = absurd (cc e)
revoked-found p q now (x ∷ xs) {r} same e hit = elim (Bool-cases (p x)) [
  | inl here ↦
      let own : x ≡ r = cc (rw here at e) in
      let also : q x ≡ true = rw own hit in rw also (rw (same x) (rw here refl))
  | inr later ↦ elim (Bool-cases (q x)) [
    | inl f ↦ rw f (rw (same x) (rw later (revoked-found p q now xs same (rw later at e) hit)))
    | inr f ↦ rw (f, later) (revoked-found p q now xs same (rw later at e) hit)
  ]
]
