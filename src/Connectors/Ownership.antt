-- ===== src/Connectors/Ownership.antt =====
-- disconnect_connector of backend/app/connectors/sync_engine.py.
use omni_ai_v.Prelude.{
  ℕ, ◌≡◌, ◌≢◌, refl, String, Bool, true, false, ◌||◌, not, none, some, List, [], ◌∷◌, arith, ◌==◌,
  nat_comparable, text_comparable, select, All, All-imp, Bool-cases, inl, inr, if◌then◌else◌,
  eq_of_beq,
}
use omni_ai_v.Rows.{find_first, find_first_sound, delete_where, select-delete_where-All}
use omni_ai_v.Connectors.{
  ConnectorConnection, Db, ok, is_known, is_connection, get_connection, disconnect_connector,
}

-- A key has one owner, and a user one connection of a type (uq_connector_connections_user_type),
-- said of the connection `c`.
abbrev pub is_alone : ConnectorConnection → ConnectorConnection → Bool
is_alone c x =
    if x.id == c.id
    then x.user_id == c.user_id
    else not (is_connection c.user_id c.connector_type x)

not_found_after :
    (p q : ConnectorConnection → Bool) (xs : List ConnectorConnection)
    → All (λ x. (q x || not (p x)) ≡ true) xs
    → find_first p (delete_where q xs) ≡ none
unfolding find_first delete_where
not_found_after p q [] h = refl
not_found_after p q (x ∷ xs) h = elim (Bool-cases (q x)) [
  | inl e ↦ rw e (not_found_after p q xs h.1)
  | inr e ↦
      let miss : p x ≡ false = ground (arith, e, h.0) in rw (e, miss) (not_found_after p q xs h.1)
]

-- If a key has one owner and a user one connection of a type: a user who disconnects a connection of a
-- known type is answered true, has no connection of the type any more, and every other user has the
-- connections from before.
disconnect_connector_gone :
    (db : Db) (user_id : ℕ) (connector_type : String) (c : ConnectorConnection) (other : ℕ)
    → get_connection db user_id connector_type ≡ some c
    → is_known connector_type ≡ true
    → All (λ x. is_alone c x ≡ true) db.connections
    → other ≢ user_id
    → ((disconnect_connector db user_id connector_type).0 ≡ ok true)
      × (get_connection (disconnect_connector db user_id connector_type).1 user_id connector_type
          ≡ none)
      × (select
            (λ x. x.user_id == other)
            (disconnect_connector db user_id connector_type).1.connections
          ≡ select (λ x. x.user_id == other) db.connections)
unfolding disconnect_connector get_connection
disconnect_connector_gone db user_id connector_type c other found known alone apart =
    let own = find_first_sound (is_connection user_id connector_type) db.connections found in
    let its : c.user_id ≡ user_id = ground arith in
    let kind : c.connector_type ≡ connector_type = eq_of_beq _ _ (ground arith) in
    rw (found, known)
      (
        refl,
        not_found_after (is_connection user_id connector_type) (λ x. x.id == c.id) db.connections
            (All-imp db.connections (λ x h. covered x (rw (its, kind) at h)) alone),
        select-delete_where-All (λ x. is_alone c x ≡ true) (λ x. x.user_id == other)
            (λ x. x.id == c.id) db.connections (λ x h hit. foreign x its h hit) alone,
      )
  where
    covered :
        (x : ConnectorConnection)
        → (if x.id == c.id
            then x.user_id == user_id
            else not (is_connection user_id connector_type x))
          ≡ true
        → (x.id == c.id || not (is_connection user_id connector_type x)) ≡ true
    covered x h = elim (Bool-cases (x.id == c.id)) [ inl e ↦ rw e refl | inr e ↦ rw e (rw e at h) ]

    foreign :
        (x : ConnectorConnection)
        → c.user_id ≡ user_id
        → is_alone c x ≡ true
        → (x.id == c.id) ≡ true
        → (x.user_id == other) ≡ false
    foreign x its h hit = elim (Bool-cases (x.user_id == other)) [
      | inr e ↦ e
      | inl e ↦
          let mine : (x.user_id == c.user_id) ≡ true = rw hit at h in
          let same : other ≡ user_id = ground (arith, e, mine, its) in absurd (apart same)
    ]
