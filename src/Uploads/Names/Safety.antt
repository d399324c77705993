-- ===== src/Uploads/Names/Safety.antt =====
-- The names that sanitize_upload_filename of backend/app/core/upload_validation.py accepts.
use Prim.Native.Char.{Char}
use Prim.Native.String.{◌++◌ as concat}
use text.Mathlib.TextLemmas.{nil-append, cons-append}
use omni_ai_v.Prelude.{
  ℕ, zero, suc, ◌≡◌, refl, String, Bool, true, false, ◌&&◌, ◌||◌, Option, none, some, arith, ltb,
  if◌then◌else◌, nat_comparable, text_comparable, is_empty, strip, lstrip, rstrip, take_text,
  Bool-cases, inl, inr, ◌⊎◌,
}
use omni_ai_v.Uploads.Names.{
  basename, cut_here, cut_dot, all_text, starts, is_dot, is_dot_or_space, parts_of, splitext,
  is_safe, replace_unsafe, utf8_length, shortened, cleaned_name, sanitize_upload_filename,
}

-- The name is not empty, has only safe characters, and begins with none that the last strip removes.
unfoldable pub IsSafe : String → Type 0
IsSafe s = (all_text is_safe s ≡ true) × (starts is_dot_or_space s ≡ true)

module _ (p : Char → Bool) where
  starts-rstrip : (s : String) → starts p s ≡ true → starts p (rstrip p s) ≡ true
  unfolding rstrip
  starts-rstrip String.[] h = h
  starts-rstrip (String.◌∷◌ c s) h = elim (Bool-cases (p c)) [
    | inl e ↦ absurd (cc (rw e at h))
    | inr e ↦ rw (e, e) refl
  ]

  starts-lstrip : (s : String) → (is_empty (lstrip p s) ≡ true) ⊎ (starts p (lstrip p s) ≡ true)
  unfolding lstrip
  starts-lstrip String.[] = inl refl
  starts-lstrip (String.◌∷◌ c s) = elim (Bool-cases (p c)) [
    | inl e ↦ rw e (starts-lstrip s)
    | inr e ↦ rw (e, e) (inr refl)
  ]

  rstrip_empty : (s : String) → is_empty s ≡ true → is_empty (rstrip p s) ≡ true
  unfolding rstrip
  rstrip_empty String.[] h = refl
  rstrip_empty (String.◌∷◌ c s) h = absurd (cc h)

module _ (q : Char → Bool) where
  all_text-lstrip :
      (p : Char → Bool) (s : String) → all_text q s ≡ true → all_text q (lstrip p s) ≡ true
  unfolding lstrip
  all_text-lstrip p String.[] h = refl
  all_text-lstrip p (String.◌∷◌ c s) h = ground (arith, all_text-lstrip p s)

  all_text-rstrip :
      (p : Char → Bool) (s : String) → all_text q s ≡ true → all_text q (rstrip p s) ≡ true
  unfolding rstrip
  all_text-rstrip p String.[] h = refl
  all_text-rstrip p (String.◌∷◌ c s) h = ground (arith, all_text-rstrip p s)

  all_text-take : (n : ℕ) (s : String) → all_text q s ≡ true → all_text q (take_text n s) ≡ true
  all_text-take zero s h = refl
  all_text-take (suc n) String.[] h = refl
  all_text-take (suc n) (String.◌∷◌ c s) h = ground (arith, all_text-take n s)

  all_text-append :
      (s t : String) → all_text q s ≡ true → all_text q t ≡ true → all_text q (concat s t) ≡ true
  all_text-append String.[] t h k = rw nil-append k
  all_text-append (String.◌∷◌ c s) t h k = rw cons-append (ground (arith, all_text-append s t))

  abbrev both : Option (String × String) → Bool
  both none = true
  both (some (name, ext)) = all_text q name && all_text q ext

  all_text-cut_here :
      (c : Char) (s : String) (o : Option (String × String))
      → q c ≡ true
      → all_text q s ≡ true
      → both o ≡ true
      → both (cut_here c s o) ≡ true
  all_text-cut_here c s none h k b = ground arith
  all_text-cut_here c s (some (name, ext)) h k b = ground arith

  all_text-cut_dot : (s : String) → all_text q s ≡ true → both (cut_dot s) ≡ true
  all_text-cut_dot String.[] h = refl
  all_text-cut_dot (String.◌∷◌ c s) h =
      let tail : all_text q s ≡ true = ground arith in
      all_text-cut_here c s (cut_dot s) (ground arith) tail (all_text-cut_dot s tail)

  all_text-shortened :
      (s : String) (o : Option (String × String))
      → all_text q s ≡ true
      → both o ≡ true
      → all_text q (shortened (parts_of s o)) ≡ true
  all_text-shortened s none h b = all_text-append (take_text 120 s) "" (all_text-take 120 s h) refl
  all_text-shortened s (some (name, ext)) h b = elim (Bool-cases (all_text is_dot name)) [
    | inl e ↦ rw e (all_text-append (take_text 120 s) "" (all_text-take 120 s h) refl)
    | inr e ↦ rw e (
        all_text-append (take_text 120 name) ext (all_text-take 120 name (ground arith))
          (ground arith))
  ]

module _ (p : Char → Bool) where
  starts-shorten : (s t : String) → starts p s ≡ true → starts p (concat (take_text 120 s) t) ≡ true
  starts-shorten String.[] t h = absurd (cc h)
  starts-shorten (String.◌∷◌ c s) t h = rw cons-append h

  abbrev starts_half : Option (String × String) → Bool
  starts_half none = true
  starts_half (some (name, ext)) = is_empty name || starts p name

  starts-cut_dot : (s : String) → starts p s ≡ true → starts_half (cut_dot s) ≡ true
  starts-cut_dot String.[] h = refl
  starts-cut_dot (String.◌∷◌ c s) h = cut (cut_dot s)
    where
      cut : (o : Option (String × String)) → starts_half (cut_here c s o) ≡ true
      cut none = ground arith
      cut (some (name, ext)) = h

  starts-shortened :
      (s : String) (o : Option (String × String))
      → starts p s ≡ true
      → starts_half o ≡ true
      → starts p (shortened (parts_of s o)) ≡ true
  starts-shortened s none h b = starts-shorten s "" h
  starts-shortened s (some (String.[], ext)) h b = starts-shorten s "" h
  starts-shortened s (some (String.◌∷◌ c name, ext)) h b =
      elim (Bool-cases (all_text is_dot (String.◌∷◌ c name))) [
        | inl e ↦ rw e (starts-shorten s "" h)
        | inr e ↦ rw e (starts-shorten (String.◌∷◌ c name) ext b)
      ]

replace_unsafe-safe :
    (inside : Bool) (s : String) → all_text is_safe (replace_unsafe inside s) ≡ true
unfolding replace_unsafe is_safe
replace_unsafe-safe inside String.[] = refl
replace_unsafe-safe inside (String.◌∷◌ c s) = elim (Bool-cases (is_safe c)) [
  | inl e ↦ rw e (rw e (replace_unsafe-safe false s))
  | inr e ↦ elim (Bool-cases inside) [
    | inl f ↦ rw (e, f) (replace_unsafe-safe true s)
    | inr f ↦ rw (e, f) (replace_unsafe-safe true s)
  ]
]

cleaned_name-IsSafe :
    (nfkc : String → String) (filename : String)
    → is_empty (cleaned_name nfkc filename) ≡ false
    → IsSafe (cleaned_name nfkc filename)
unfolding cleaned_name IsSafe
cleaned_name-IsSafe nfkc filename full =
    let bare = rstrip is_dot (lstrip is_dot (strip (basename filename))) in
    let replaced = replace_unsafe false (nfkc bare) in
    let left = lstrip is_dot_or_space replaced in
    (
      all_text-rstrip is_safe is_dot_or_space left (
          all_text-lstrip is_safe is_dot_or_space replaced (replace_unsafe-safe false (nfkc bare))),
      elim (starts-lstrip is_dot_or_space replaced) [
        | inl e ↦ absurd (cc (full, rstrip_empty is_dot_or_space left e))
        | inr e ↦ starts-rstrip is_dot_or_space left e
      ],
    )

chosen-IsSafe :
    (bad long : Bool) (x y name : String)
    → IsSafe x
    → IsSafe y
    → (if bad then none else if long then some x else some y) ≡ some name
    → IsSafe name
chosen-IsSafe true long x y name h k e = absurd (cc e)
chosen-IsSafe false true x y name h k e = let same : x ≡ name = cc e in rw (← same) h
chosen-IsSafe false false x y name h k e = let same : y ≡ name = cc e in rw (← same) k

-- A name that is accepted has only safe characters, so no separator, and begins with neither a dot
-- nor a space, so it is no reference to a directory, whatever the name of the upload and its normal
-- form are.
pub sanitize_upload_filename-IsSafe :
    (nfkc : String → String) (filename : String) {name : String}
    → sanitize_upload_filename nfkc filename ≡ some name
    → IsSafe name
unfolding sanitize_upload_filename splitext IsSafe
sanitize_upload_filename-IsSafe nfkc filename {name} e =
    let cleaned = cleaned_name nfkc filename in
    elim (Bool-cases (is_empty cleaned)) [
      | inl empty ↦ absurd (cc (rw empty at e))
      | inr full ↦
          let (safe, start) = cleaned_name-IsSafe nfkc filename full in
          chosen-IsSafe _ (ltb 180 (utf8_length cleaned)) (shortened (splitext cleaned)) cleaned
            name
            (
              all_text-shortened is_safe cleaned (cut_dot cleaned) safe
                  (all_text-cut_dot is_safe cleaned safe),
              starts-shortened is_dot_or_space cleaned (cut_dot cleaned) start
                  (starts-cut_dot is_dot_or_space cleaned start),
            )
            (safe, start) (rw full at e)
    ]
