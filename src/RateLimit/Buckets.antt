-- ===== src/RateLimit/Buckets.antt =====
-- One bucket of the sliding window against the history of the requests that it admitted.
use mathlib.Core.List.{append_assoc}
use omni_ai_v.Prelude.{
  ℕ, ◌+◌, ◌-◌, ◌≤◌, ◌<◌, ◌≡◌, refl, ap, Bool, ◌&&◌, List, [], ◌∷◌, ◌++◌, arith, leb, ltb, length,
  tally, tally-append, All, All-append, All-imp, Bool-cases, inl, inr, ltb→lt,
}
use omni_ai_v.RateLimit.Limiter.{evict}

-- The instant `t` lies in the closed window of `width` that begins at `a`.
abbrev pub in_window : ℕ → ℕ → ℕ → Bool
in_window a width t = leb a t && leb t (a + width)

pub record Evicted (start : ℕ) (bucket : List ℕ) : Type 0 where
  pub dropped : List ℕ
  pub split : bucket ≡ dropped ++ evict start bucket
  pub old : All (λ t. t < start) dropped

pub evict-Evicted : (start : ℕ) (bucket : List ℕ) → Evicted start bucket
unfolding evict
evict-Evicted start [] = record { dropped = []; split = refl; old = tt }
evict-Evicted start (t ∷ bucket) = elim (Bool-cases (ltb t start)) [
  | inl e ↦
      let r = evict-Evicted start bucket in
      record {
        dropped = t ∷ r.dropped;
        split = rw (e, evict) (ap (λ l. t ∷ l) r.split);
        old = (ltb→lt t start e, r.old);
      }
  | inr e ↦ record { dropped = []; split = rw (e, evict); old = tt }
]

-- At time `now` the bucket holds the end of the history, what left it is out of every window
-- that reaches `now`, and no window holds more than `limit` of the history.
pub record Covers (width limit now : ℕ) (history bucket : List ℕ) : Type 0 where
  pub dropped : List ℕ
  pub split : history ≡ dropped ++ bucket
  pub old : All (λ t. t + width < now) dropped
  pub bounded : (a : ℕ) → tally (in_window a width) history ≤ limit

tally-le-length : (p : ℕ → Bool) (xs : List ℕ) → tally p xs ≤ length xs
tally-le-length p [] = omega arith
tally-le-length p (x ∷ xs) = ground (arith, tally-le-length p xs)

tally-old :
    (a width now : ℕ) (xs : List ℕ)
    → now ≤ a + width
    → All (λ t. t + width < now) xs
    → tally (in_window a width) xs ≡ 0
tally-old a width now [] fits old = refl
tally-old a width now (x ∷ xs) fits old =
    let first = old.0 in ground (arith, tally-old a width now xs fits old.1)

module _ {width limit now : ℕ} {history bucket : List ℕ}
    (c : Covers width limit now history bucket) where
  pub Covers-later : (later : ℕ) → now ≤ later → Covers width limit later history bucket
  Covers-later later h = record {
    dropped = c.dropped;
    split = c.split;
    old = All-imp c.dropped (λ t p. omega arith) c.old;
    bounded = c.bounded;
  }

  pub Covers-evict : Covers width limit now history (evict (now - width) bucket)
  Covers-evict =
      let r = evict-Evicted (now - width) bucket in
      record {
        dropped = c.dropped ++ r.dropped;
        split =
            cc (c.split, r.split, append_assoc c.dropped r.dropped (evict (now - width) bucket));
        old =
            All-append (λ t. t + width < now) c.dropped r.dropped c.old
              (All-imp r.dropped (λ t p. omega arith) r.old);
        bounded = c.bounded;
      }

  admit_bounded :
      length bucket < limit → (a : ℕ) → tally (in_window a width) (history ++ now ∷ []) ≤ limit
  admit_bounded room a = elim (Bool-cases (leb now (a + width))) [
    | inl e ↦
        rw
          (
            tally-append (in_window a width) history (now ∷ []),
            c.split,
            tally-append (in_window a width) c.dropped bucket,
          )
          (ground (
            arith,
            tally-old a width now c.dropped (ground arith) c.old,
            tally-le-length (in_window a width) bucket,
          ))
    | inr e ↦ rw tally-append (ground (arith, c.bounded a))
  ]

  pub Covers-admit :
      length bucket < limit → Covers width limit now (history ++ now ∷ []) (bucket ++ now ∷ [])
  Covers-admit room = record {
    dropped = c.dropped;
    split = cc (c.split, append_assoc c.dropped bucket (now ∷ []));
    old = c.old;
    bounded = admit_bounded room;
  }
