-- ===== src/Notifications/Counts.antt =====
-- The count of unread rows in backend/app/services/notification_service.py.
use omni_ai_v.Prelude.{
  ℕ, ◌≡◌, ◌≢◌, refl, true, false, ◌&&◌, List, [], ◌∷◌, arith, ◌==◌, nat_comparable, tally,
  length-select, Bool-cases, inl, inr,
}
use omni_ai_v.Rows.{update_where}
use omni_ai_v.Notifications.{Notification, Db, is_unread, set_read, mark_all_read, get_unread_count}

none_unread :
    (u : ℕ) (rows : List Notification)
    → tally (is_unread u) (update_where (is_unread u) set_read rows) ≡ 0
unfolding update_where
none_unread u [] = refl
none_unread u (n ∷ rows) = elim (Bool-cases (is_unread u n)) [
  | inl e ↦
      let read : (n.user_id == u && false) ≡ false = ground arith in
      rw e (rw read (omega (arith, none_unread u rows)))
  | inr e ↦ rw e (rw e (omega (arith, none_unread u rows)))
]

other_owner :
    (u v : ℕ) (n : Notification) → v ≢ u → (n.user_id == u) ≡ true → (n.user_id == v) ≡ false
other_owner u v n apart h = elim (Bool-cases (n.user_id == v)) [
  | inr e ↦ e
  | inl e ↦ let same : v ≡ u = ground arith in absurd (apart same)
]

same_unread :
    (u v : ℕ) (rows : List Notification)
    → v ≢ u
    → tally (is_unread v) (update_where (is_unread u) set_read rows) ≡ tally (is_unread v) rows
unfolding update_where
same_unread u v [] apart = refl
same_unread u v (n ∷ rows) apart = elim (Bool-cases (is_unread u n)) [
  | inr e ↦ rw e (omega (arith, same_unread u v rows apart))
  | inl e ↦
      let other : (n.user_id == v) ≡ false = other_owner u v n apart (ground arith) in
      rw e (rw other (omega (arith, same_unread u v rows apart)))
]

-- Marking all as read answers how many of the user's were unread, after which none is, and leaves the
-- count of every other user.
mark_all_read_counts :
    (db : Db) (user_id other : ℕ)
    → other ≢ user_id
    → ((mark_all_read db user_id).0 ≡ get_unread_count db user_id)
      × (get_unread_count (mark_all_read db user_id).1 user_id ≡ 0)
      × (get_unread_count (mark_all_read db user_id).1 other ≡ get_unread_count db other)
unfolding mark_all_read get_unread_count
mark_all_read_counts db user_id other apart = (
  length-select (is_unread user_id) db.notifications,
  none_unread user_id db.notifications,
  same_unread user_id other db.notifications apart,
)
