-- ===== src/Caching/Keys.antt =====
-- `_key` of backend/app/services/redis_cache_service.py, on the arguments of a retrieval.
use Prim.Native.String.{◌++◌ as concat}
use text.Mathlib.TextLemmas.{append_assoc, append_cancel_left, cons-append}
use omni_ai_v.Prelude.{
  ℕ, ◌≡◌, ◌≢◌, refl, sym, ap, ◌∙◌, String, true, false, Option, none, some, List, ◌∷◌, map, decimal,
  decimal_inj, lacks, lacks-decimal, join, split, split-join, Bool-cases, inl, inr, ◌==◌,
  text_comparable, eq_of_beq,
}
use omni_ai_v.Caching.{str, optional, raw_key, key, Retrieval, retrieval_parts}

-- The texts that the user chooses have no separator.
unfoldable pub IsPlain : Retrieval → Type 0
IsPlain r = (lacks b'|' r.query ≡ true) × (lacks b'|' r.workspace_id ≡ true)

str-lacks : (n : Option ℕ) → lacks b'|' (str (optional n)) ≡ true
unfolding str
str-lacks none = refl
str-lacks (some n) = lacks-decimal n

abbrev second_of : List String → String
second_of (_ ∷ _ ∷ s ∷ _) = s
second_of _ = ""

raw_key_user :
    (r : Retrieval)
    → IsPlain r
    → second_of (split b'|' (raw_key "retrieval" (retrieval_parts r))) ≡ str (optional r.user_id)
unfolding raw_key retrieval_parts IsPlain str
raw_key_user r (q, w) = ap second_of (
    split-join "|" "retrieval" (map str (retrieval_parts r)) (
      refl,
      (q, (str-lacks r.user_id, (w, (str-lacks r.collection_id, (str-lacks r.session_id, tt))))),
    ))

-- If SHA-256 does not collide, the retrievals of two signed-in users whose texts have no separator are
-- kept under different keys.
key_apart :
    (digest : String → String) (r s : Retrieval) (u v : ℕ)
    → ((a b : String) → digest a ≡ digest b → a ≡ b)
    → IsPlain r
    → IsPlain s
    → r.user_id ≡ some u
    → s.user_id ≡ some v
    → u ≢ v
    → (key digest "retrieval" (retrieval_parts r) == key digest "retrieval" (retrieval_parts s))
      ≡ false
unfolding key str
key_apart digest r s u v inj plain plain' own own' apart =
    elim (Bool-cases
      (key digest "retrieval" (retrieval_parts r) == key digest "retrieval" (retrieval_parts s))) [
        | inr e ↦ e
        | inl e ↦
            let same = inj _ _ (append_cancel_left "omniai:cache:" _ _ (eq_of_beq _ _ e)) in
            let users =
              sym (raw_key_user r plain)
              ∙ ap (λ t. second_of (split b'|' t)) same
              ∙ raw_key_user s plain' in
            absurd (apart (decimal_inj u v (rw (own, own') at users)))
      ]

abbrev joined : String → ℕ → String → String
joined a n b = concat a (String.◌∷◌ "|" (concat (decimal n) (String.◌∷◌ "|" b)))

-- The retrieval of user `u` for the query `a|v|b` in the workspace `w` is kept under the same key as
-- that of user `v` for the query `a` in the workspace `b|u|w`.
key_shared :
    (digest : String → String) (a b w : String) (u v : ℕ) (collection_id session_id : Option ℕ)
    → key digest "retrieval" (
        retrieval_parts (record {
          query = joined a v b;
          user_id = some u;
          workspace_id = w;
          collection_id = collection_id;
          session_id = session_id;
        }))
      ≡ key digest "retrieval" (
          retrieval_parts (record {
            query = a;
            user_id = some v;
            workspace_id = joined b u w;
            collection_id = collection_id;
            session_id = session_id;
          }))
unfolding key raw_key retrieval_parts str join
key_shared digest a b w u v collection_id session_id =
    ap (λ t. concat "omniai:cache:" (digest t)) (simp (append_assoc, cons-append))
