-- ===== src/Accounts/Sessions/Keys.antt =====
-- The keys of the sessions, and what a refresh of backend/app/api/oauth_routes.py writes because of
-- them.
use omni_ai_v.Prelude.{
  ℕ, ◌+◌, ◌≡◌, refl, String, Bool, true, false, not, some, [], ◌∷◌, ◌++◌, arith, ◌==◌, ltb,
  nat_comparable, text_comparable, All, All-imp, All-append, Bool-cases, inl, inr, if◌then◌else◌,
  is_some,
}
use omni_ai_v.Rows.{
  find_first, find_first-All, update_where, delete_where, All-delete_where, All-update_where,
}
use omni_ai_v.Accounts.{UserSessionRecord, Env}
use omni_ai_v.Accounts.Login.{is_session, is_active}
use omni_ai_v.Accounts.Revocation.{Rows, first_revoked}
use omni_ai_v.Accounts.Refresh.{Tokens, rotate}

abbrev pub Distinct : Rows → Type 0
Distinct [] = Unit {0}
Distinct (x ∷ xs) = All (λ y. (y.id == x.id) ≡ false) xs × Distinct xs

-- Keys are given in order, so none is given twice.
pub record IsKeyed (next : ℕ) (rows : Rows) : Type 0 where
  pub below : All (λ r. ltb r.id next ≡ true) rows
  pub distinct : Distinct rows

module _ (p : UserSessionRecord → Bool) (f : UserSessionRecord → UserSessionRecord)
    (same : (x : UserSessionRecord) → (f x).id ≡ x.id) where
  Distinct-update : (rows : Rows) → Distinct rows → Distinct (update_where p f rows)
  unfolding update_where
  Distinct-update [] h = tt
  Distinct-update (x ∷ rows) h =
      let kept : (if p x then f x else x).id ≡ x.id = (elim (Bool-cases (p x)) [
        | inl e ↦ rw e (same x)
        | inr e ↦ rw e refl
      ]) in
      (
        rw kept (
            All-update_where (λ y. (y.id == x.id) ≡ false) p f rows (λ y q hit. rw (same y) q) h.0),
        Distinct-update rows h.1,
      )

  pub update-IsKeyed :
      (next : ℕ) (rows : Rows) → IsKeyed next rows → IsKeyed next (update_where p f rows)
  update-IsKeyed next rows h = record {
    below =
        All-update_where (λ r. ltb r.id next ≡ true) p f rows (λ y q hit. rw (same y) q) h.below;
    distinct = Distinct-update rows h.distinct;
  }

Distinct-delete :
    (p : UserSessionRecord → Bool) (rows : Rows) → Distinct rows → Distinct (delete_where p rows)
unfolding delete_where
Distinct-delete p [] h = tt
Distinct-delete p (x ∷ rows) h = elim (Bool-cases (p x)) [
  | inl e ↦ rw (e, not) (Distinct-delete p rows h.1)
  | inr e ↦
      rw (e, not)
        (All-delete_where (λ y. (y.id == x.id) ≡ false) p rows h.0, Distinct-delete p rows h.1)
]

pub delete-IsKeyed :
    (p : UserSessionRecord → Bool) (next : ℕ) (rows : Rows)
    → IsKeyed next rows
    → IsKeyed next (delete_where p rows)
delete-IsKeyed p next rows h = record {
  below = All-delete_where (λ r. ltb r.id next ≡ true) p rows h.below;
  distinct = Distinct-delete p rows h.distinct;
}

Distinct-append :
    (rows : Rows) (row : UserSessionRecord)
    → All (λ r. ltb r.id row.id ≡ true) rows
    → Distinct rows
    → Distinct (rows ++ row ∷ [])
Distinct-append [] row below h = (tt, tt)
Distinct-append (x ∷ rows) row below h = (
  All-append (λ y. (y.id == x.id) ≡ false) rows (row ∷ []) h.0 (ground (arith, below.0), tt),
  Distinct-append rows row below.1 h.1,
)

pub append-IsKeyed :
    (rows : Rows) (row : UserSessionRecord)
    → IsKeyed row.id rows
    → IsKeyed (row.id + 1) (rows ++ row ∷ [])
append-IsKeyed rows row h = record {
  below =
      All-append (λ r. ltb r.id (row.id + 1) ≡ true) rows (row ∷ [])
        (All-imp rows (λ x q. ground arith) h.below) (ground arith, tt);
  distinct = Distinct-append rows row h.below h.distinct;
}

-- Where keys differ, the rows with the key of a row that was found are that row.
pub found_only :
    (q : UserSessionRecord → Bool) (rows : Rows) {r : UserSessionRecord}
    → Distinct rows
    → find_first q rows ≡ some r
    → is_active r ≡ true
    → All (λ x. (x.id == r.id) ≡ true → is_active x ≡ true) rows
unfolding find_first
found_only q [] h e active = tt
found_only q (x ∷ rows) {r} h e active = elim (Bool-cases (q x)) [
  | inl hit ↦
      let same : x ≡ r = ground arith in
      (λ its. rw same active, All-imp rows (λ y other its. absurd (cc (other, its, same))) h.0)
  | inr miss ↦
      let later : find_first q rows ≡ some r = ground arith in
      let (its, other) = find_first-All (λ y. (y.id == x.id) ≡ false) q rows later h.0 in
      (λ same. absurd (ground (arith, other, same)), found_only q rows h.1 later active)
]

-- A refresh of an active session, for a new token id, keeps what is revoked under another.
module _ (env : Env) (t : Tokens) (agent : String) (id k : ℕ) (jti : String) where
  pub rotate_revoked :
      (rows : Rows)
      → (t.next_jti == jti) ≡ false
      → All (λ x. (x.id == k) ≡ true → is_active x ≡ true) rows
      → first_revoked (is_session id jti) rows ≡ true
      → first_revoked (is_session id jti) (update_where (λ x. x.id == k) (rotate env t agent) rows)
        ≡ true
  unfolding find_first update_where
  rotate_revoked [] other active h = cc
  rotate_revoked (x ∷ rows) other active h = elim (Bool-cases (x.id == k)) [
    | inl hit ↦
        let rest : first_revoked (is_session id jti) rows ≡ true =
          (let on = active.0 hit in
            elim (Bool-cases (is_session id jti x)) [
              | inl e ↦ let off : is_some x.revoked_at ≡ true = rw e at h in absurd (ground arith)
              | inr e ↦ rw e at h
            ]) in
        let moved : is_session id jti (rotate env t agent x) ≡ false =
          (elim (Bool-cases (x.user_id == id)) [
            | inl e ↦ rw (e, other) refl
            | inr e ↦ rw e refl
          ]) in
        rw hit (rw moved (rotate_revoked rows other active.1 rest))
    | inr miss ↦ elim (Bool-cases (is_session id jti x)) [
      | inl e ↦ rw (miss, e) (rw e at h)
      | inr e ↦ rw (miss, e) (rotate_revoked rows other active.1 (rw e at h))
    ]
  ]
