-- ===== src/Accounts/Deletion.antt =====
-- delete_account of backend/app/services/settings_service.py over the tables that it deletes from.
use omni_ai_v.Prelude.{
  ℕ, ◌≡◌, ◌≢◌, String, true, false, ◌==◌, nat_comparable, text_comparable, lower, strip, select,
  All, ◌⊎◌,
}
use omni_ai_v.Accounts.{Env, User, Db, Result, ok, http_exception, is_user}

-- No table has a row of the user.
pub record IsGone (user_id : ℕ) (db : Db) : Type 0 where
  pub users : All (λ u. is_user user_id u ≡ false) db.users
  pub sessions : All (λ r. (r.user_id == user_id) ≡ false) db.sessions
  pub api_keys : All (λ k. (k.user_id == user_id) ≡ false) db.api_keys
  pub webhooks : All (λ w. (w.user_id == user_id) ≡ false) db.webhooks
  pub preferences : All (λ p. (p.user_id == user_id) ≡ false) db.preferences
  pub invoices : All (λ i. (i.user_id == user_id) ≡ false) db.invoices
  pub subscriptions : All (λ b. (b.user_id == user_id) ≡ false) db.subscriptions

-- The user has the same rows in both states.
pub record IsSameFor (user_id : ℕ) (before after : Db) : Type 0 where
  pub users : select (is_user user_id) after.users ≡ select (is_user user_id) before.users
  pub sessions :
      select (λ r. r.user_id == user_id) after.sessions
      ≡ select (λ r. r.user_id == user_id) before.sessions
  pub api_keys :
      select (λ k. k.user_id == user_id) after.api_keys
      ≡ select (λ k. k.user_id == user_id) before.api_keys
  pub webhooks :
      select (λ w. w.user_id == user_id) after.webhooks
      ≡ select (λ w. w.user_id == user_id) before.webhooks
  pub preferences :
      select (λ p. p.user_id == user_id) after.preferences
      ≡ select (λ p. p.user_id == user_id) before.preferences
  pub invoices :
      select (λ i. i.user_id == user_id) after.invoices
      ≡ select (λ i. i.user_id == user_id) before.invoices
  pub subscriptions :
      select (λ b. b.user_id == user_id) after.subscriptions
      ≡ select (λ b. b.user_id == user_id) before.subscriptions

-- By the answer: the deletion was confirmed and no other table refers to the user, whose rows are gone,
-- and another user has all rows; or one of these does not hold, and nothing has changed.
abbrev pub IsDeletion : Env → User → String → ℕ → Db → Result String × Db → Type 0
IsDeletion env user confirmation other db (ok message, after) =
    (lower (strip confirmation) ≡ "delete my account")
    × (env.is_referenced user.id ≡ false)
    × IsGone user.id after
    × IsSameFor other db after
IsDeletion env user confirmation other db (http_exception status detail, after) =
    (after ≡ db)
    × (((status ≡ 400) × (lower (strip confirmation) ≢ "delete my account"))
        ⊎ ((status ≡ 500) × (env.is_referenced user.id ≡ true)))
