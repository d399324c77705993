-- ===== src/Notifications/Tests.antt =====
-- Notifications of two users.
use omni_ai_v.Prelude.{◌≡◌, refl, true, none, [], ◌∷◌, map, sort_by}
use omni_ai_v.Rows
use omni_ai_v.Notifications.{Db, notify_user, list_notifications, mark_notification_read}

abbrev db : Db
db =
    (notify_user 3
      (notify_user 2
        (notify_user 1 (record { notifications = []; next_notification = 1 }) 7 "a" none "system"
          none).1
        8 "b" none "system" none).1
      7 "c" none "agent" none).1

listed_run :
    map (λ n. n.title) (list_notifications (mark_notification_read db 7 1).1 7 true 50) ≡ "c" ∷ []
unfolding list_notifications mark_notification_read notify_user sort_by Rows.find_first
    Rows.update_where
listed_run = refl
