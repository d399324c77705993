-- ===== src/Notifications.antt =====
-- backend/app/services/notification_service.py. Sending e-mail is outside; whether the mailer raises
-- changes nothing here, since its exception is caught.
pub mod Counts
mod Tests
use omni_ai_v.Prelude.{
  ℕ, ◌+◌, String, Bool, true, false, ◌&&◌, not, Option, none, some, List, [], ◌∷◌, ◌++◌,
  if◌then◌else◌, ◌==◌, nat_comparable, leb, take, select, sort_by, length, tally,
}
use omni_ai_v.Rows.{find_first, update_where}

pub record Notification : Type 0 where
  pub id : ℕ
  pub user_id : ℕ
  pub title : String
  pub body : Option String
  pub category : String
  pub link : Option String
  pub read : Bool
  pub created_at : ℕ

pub record Db : Type 0 where
  pub notifications : List Notification
  pub next_notification : ℕ

unfoldable pub notify_user :
    ℕ → Db → ℕ → String → Option String → String → Option String → Notification × Db
notify_user now db user_id title body category link =
    let row : Notification = record {
      id = db.next_notification;
      user_id = user_id;
      title = title;
      body = body;
      category = category;
      link = link;
      read = false;
      created_at = now;
    } in
    (
      row,
      record {
        notifications = db.notifications ++ row ∷ [];
        next_notification = db.next_notification + 1;
      },
    )

abbrev pub is_listed : ℕ → Bool → Notification → Bool
is_listed user_id unread_only n = n.user_id == user_id && (if unread_only then not n.read else true)

-- Newest first, at most `limit`.
unfoldable pub list_notifications : Db → ℕ → Bool → ℕ → List Notification
unfolding sort_by
list_notifications db user_id unread_only limit = take limit (
    sort_by (λ a b. leb b.created_at a.created_at)
      (select (is_listed user_id unread_only) db.notifications))

abbrev pub set_read : Notification → Notification
set_read n = record n { read = true }

abbrev pub mark_found : Db → Option Notification → Bool × Db
mark_found db none = (false, db)
mark_found db (some n) =
    (true, record db { notifications = update_where (λ x. x.id == n.id) set_read db.notifications })

unfoldable pub mark_notification_read : Db → ℕ → ℕ → Bool × Db
unfolding find_first update_where
mark_notification_read db user_id notification_id =
    mark_found db
      (find_first (λ n. n.id == notification_id && n.user_id == user_id) db.notifications)

abbrev pub is_unread : ℕ → Notification → Bool
is_unread user_id n = n.user_id == user_id && not n.read

-- How many rows were unread, and the tables.
unfoldable pub mark_all_read : Db → ℕ → ℕ × Db
unfolding update_where
mark_all_read db user_id = (
  length (select (is_unread user_id) db.notifications),
  record db { notifications = update_where (is_unread user_id) set_read db.notifications },
)

unfoldable pub get_unread_count : Db → ℕ → ℕ
get_unread_count db user_id = tally (is_unread user_id) db.notifications
