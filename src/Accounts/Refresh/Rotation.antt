-- ===== src/Accounts/Refresh/Rotation.antt =====
-- The tokens of a session after a refresh and after a logout.
use omni_ai_v.Prelude.{
  ℕ, ◌+◌, ◌≡◌, refl, ◌∙◌, ap, String, Bool, true, false, ◌&&◌, none, some, List, arith,
  if◌then◌else◌, ◌==◌, nat_comparable, text_comparable, is_empty, leb, All, Bool-cases,
  Option-cases, eq_of_beq, beq_refl, All-both, All-imp, inl, inr,
}
use omni_ai_v.Rows.{find_first, update_where, find_first-All}
use omni_ai_v.Rows.Updates.{find_first-update_where_moved, find_first-update_where-none}
use omni_ai_v.Accounts.{User, UserSessionRecord, Db, Env, ok, is_user}
use omni_ai_v.Accounts.Login.{is_active}
use omni_ai_v.Accounts.Refresh.{
  Tokens, Issued, holds, is_over, token_refused, rotate, refresh_session,
}

-- The query of a refresh.
abbrev is_usable : String → UserSessionRecord → Bool
is_usable h r = holds h r && is_active r

-- The session `k`, and no other, has the hash `h`.
abbrev pub IsOf : String → ℕ → Db → Type 0
IsOf h k db = All (λ x. holds h x ≡ (x.id == k)) db.sessions

abbrev pub IsFresh : String → Db → Type 0
IsFresh h db = All (λ x. holds h x ≡ false) db.sessions

-- A refresh that succeeds has an active session and its user.
record IsRefreshed (env : Env) (t : Tokens) (agent token : String) (db : Db) (issued : Issued)
    : Type 0 where
  row : UserSessionRecord
  user : User
  is_found : find_first (is_usable (t.hash token)) db.sessions ≡ some row
  has_user : find_first (is_user row.user_id) db.users ≡ some user
  is_written : refresh_session env t agent (some token) db ≡ (
    ok (record { sub = user.username; jti = t.next_jti; refresh_token = t.next_refresh_token }),
    record db { sessions = update_where (λ x. x.id == row.id) (rotate env t agent) db.sessions },
  )
  is_named : issued.sub ≡ user.username

refresh_session-IsRefreshed :
    (env : Env) (t : Tokens) (agent token : String) (db : Db) {issued : Issued}
    → (refresh_session env t agent (some token) db).0 ≡ ok issued
    → IsRefreshed env t agent token db issued
unfolding refresh_session
refresh_session-IsRefreshed env t agent token db e = elim (Bool-cases (is_empty token)) [
  | inl hit ↦ absurd (ground arith)
  | inr miss ↦ elim (Option-cases (find_first (is_usable (t.hash token)) db.sessions)) [
    | inl absent ↦ absurd (ground arith)
    | inr (r, present) ↦ elim (Bool-cases (is_over env.now r.refresh_expires_at)) [
      | inl over ↦ absurd (ground arith)
      | inr valid ↦ elim (Option-cases (find_first (is_user r.user_id) db.users)) [
        | inl absent ↦ absurd (ground arith)
        | inr (user, known) ↦ record {
          row = r;
          user = user;
          is_found = present;
          has_user = known;
          is_written = rw (miss, present, valid, known) refl;
          is_named = ground arith;
        }
      ]
    ]
  ]
]

-- The row that a query of the hash of the session `k` finds is that session's.
IsOf-row :
    (h : String) (k : ℕ) (db : Db) {r : UserSessionRecord}
    → IsOf h k db
    → find_first (is_usable h) db.sessions ≡ some r
    → (holds h r ≡ true) × (is_active r ≡ true) × (r.id ≡ k)
IsOf-row h k db {r} own e =
    let (usable, named) =
      find_first-All (λ x. holds h x ≡ (x.id == k)) (is_usable h) db.sessions e own in
    let held : holds h r ≡ true = ground arith in
    let active : is_active r ≡ true = ground arith in (held, active, eq_of_beq r.id k (cc))

-- The session `k` with a token of the hash `h` has one of the hash `h'` once it is rotated.
module _ (env : Env) (t : Tokens) (agent : String) (h : String) (k : ℕ) (db : Db)
    (own : IsOf h k db) (fresh : IsFresh (t.hash t.next_refresh_token) db) where
  abbrev rotated_rows : List UserSessionRecord
  rotated_rows = update_where (λ x. x.id == k) (rotate env t agent) db.sessions

  each_row :
      (x : UserSessionRecord)
      → (holds h x ≡ (x.id == k)) × (holds (t.hash t.next_refresh_token) x ≡ false)
      → is_usable (t.hash t.next_refresh_token) (if x.id == k then rotate env t agent x else x)
        ≡ is_usable h x
  each_row x both = elim (Bool-cases (x.id == k)) [
    | inl hit ↦ rw (hit, both.0, hit, beq_refl (t.hash t.next_refresh_token)) refl
    | inr miss ↦ rw (miss, both.0, miss, both.1) refl
  ]

  new-is_usable :
      {r : UserSessionRecord}
      → find_first (is_usable h) db.sessions ≡ some r
      → find_first (is_usable (t.hash t.next_refresh_token)) rotated_rows
        ≡ some (rotate env t agent r)
  new-is_usable {r} e =
      let (held, active, same) = IsOf-row h k db own e in
      let moved =
        find_first-update_where_moved (is_usable (t.hash t.next_refresh_token)) (is_usable h)
          (λ x. x.id == k) (rotate env t agent) db.sessions {a = r}
          (All-imp db.sessions each_row (
            All-both (λ x. holds h x ≡ (x.id == k))
              (λ x. holds (t.hash t.next_refresh_token) x ≡ false) db.sessions own fresh))
          e in
      let hit : (r.id == k) ≡ true = rw same (beq_refl k) in rw moved (rw hit refl)

  old-is_usable :
      (t.hash t.next_refresh_token == h) ≡ false → find_first (is_usable h) rotated_rows ≡ none
  old-is_usable other =
      find_first-update_where-none (is_usable h) (λ x. x.id == k) (rotate env t agent) db.sessions
        (All-imp db.sessions old_row own)
    where
      old_row :
          (x : UserSessionRecord)
          → holds h x ≡ (x.id == k)
          → is_usable h (if x.id == k then rotate env t agent x else x) ≡ false
      old_row x e = elim (Bool-cases (x.id == k)) [
        | inl hit ↦ rw (hit, other) refl
        | inr miss ↦ rw (miss, e, miss) refl
      ]

-- The names of the next tokens, with the same hash and lifetime.
abbrev pub next_tokens : Tokens → String → String → Tokens
next_tokens t jti refresh_token = record t { next_jti = jti; next_refresh_token = refresh_token }

new-other :
    (h h' : String) (r : UserSessionRecord)
    → holds h r ≡ true
    → holds h' r ≡ false
    → (h' == h) ≡ false
new-other h h' r held free = elim (Bool-cases (h' == h)) [
  | inl hit ↦ let same = eq_of_beq h' h hit in absurd (cc)
  | inr miss ↦ miss
]

unknown_refused :
    (env : Env) (t : Tokens) (agent token : String) (db : Db)
    → find_first (is_usable (t.hash token)) db.sessions ≡ none
    → refresh_session env t agent (some token) db ≡ (token_refused, db)
unfolding refresh_session
unknown_refused env t agent token db absent = elim (Bool-cases (is_empty token)) [
  | inl hit ↦ rw hit refl
  | inr miss ↦ rw (miss, absent) refl
]

known_answered :
    (env : Env) (t : Tokens) (agent token : String) (db : Db) {r : UserSessionRecord} {at : ℕ}
    {user : User}
    → is_empty token ≡ false
    → find_first (is_usable (t.hash token)) db.sessions ≡ some r
    → r.refresh_expires_at ≡ some at
    → find_first (is_user r.user_id) db.users ≡ some user
    → (refresh_session env t agent (some token) db).0 ≡ (
        if leb at env.now
        then token_refused
        else ok (record {
          sub = user.username;
          jti = t.next_jti;
          refresh_token = t.next_refresh_token;
        }))
unfolding refresh_session
known_answered env t agent token db {at} filled present expiry known =
    elim (Bool-cases (leb at env.now)) [
      | inl over ↦ rw (filled, present, expiry, over) refl
      | inr valid ↦ rw (filled, present, expiry, valid, known) refl
    ]

-- If one session has the hash of a token and none that of the next one, which is not empty, and a
-- refresh with the token succeeds: afterwards any refresh with the token is token_refused and changes
-- nothing, and one with the next token succeeds for the same user until the lifetime of that token
-- is over, and is token_refused from then on.
pub refresh_session_rotates :
    (env later : Env) (t : Tokens) (agent token : String) (db : Db) (k : ℕ) (issued : Issued)
    (later_agent jti refresh_token : String)
    → IsOf (t.hash token) k db
    → IsFresh (t.hash t.next_refresh_token) db
    → is_empty t.next_refresh_token ≡ false
    → (refresh_session env t agent (some token) db).0 ≡ ok issued
    → (refresh_session later
          (next_tokens t jti refresh_token)
          later_agent
          (some token)
          (refresh_session env t agent (some token) db).1
        ≡ (token_refused, (refresh_session env t agent (some token) db).1))
      × ((refresh_session later
            (next_tokens t jti refresh_token)
            later_agent
            (some t.next_refresh_token)
            (refresh_session env t agent (some token) db).1).0
          ≡ (if leb (env.now + t.lifetime) later.now
              then token_refused
              else ok (record { sub = issued.sub; jti = jti; refresh_token = refresh_token })))
refresh_session_rotates env later t agent token db k issued later_agent jti refresh_token own fresh
      filled e =
    let done = refresh_session-IsRefreshed env t agent token db e in
    let r = done.row in
    let (held, active, same) = IsOf-row (t.hash token) k db own done.is_found in
    let (held', unheld) =
      find_first-All (λ x. holds (t.hash t.next_refresh_token) x ≡ false) (is_usable (t.hash token))
        db.sessions done.is_found fresh in
    let after : Db = record db {
      sessions = rotated_rows env t agent (t.hash token) k db own fresh;
    } in
    let written : (refresh_session env t agent (some token) db).1 ≡ after =
      ap (λ p. p.1) done.is_written ∙ rw same refl in
    let old = unknown_refused later (next_tokens t jti refresh_token) later_agent token after (
      old-is_usable env t agent (t.hash token) k db own fresh
        (new-other (t.hash token) (t.hash t.next_refresh_token) r held unheld)) in
    let new =
      known_answered later (next_tokens t jti refresh_token) later_agent t.next_refresh_token after
        filled (new-is_usable env t agent (t.hash token) k db own fresh done.is_found) refl
        done.has_user in
    rw (written, done.is_named) (old, new)
