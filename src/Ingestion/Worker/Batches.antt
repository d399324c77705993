-- ===== src/Ingestion/Worker/Batches.antt =====
-- The loop over the batches in store_chunks of backend/app/services/documents_services.py.
use mathlib.Core.List.{append-nil, append_assoc}
use omni_ai_v.Prelude.{
  ℕ, zero, suc, ◌+◌, ◌≤◌, max, ◌≡◌, refl, sym, ap, ◌∙◌, subst, String, Bool, Option, none, some,
  List, [], ◌∷◌, ◌++◌, map, arith, length, take, drop, take-append-drop, length-drop, Option-cases,
  inl, inr, true, false, ◌||◌, is_some, ◌⊎◌,
}
use omni_ai_v.Ingestion.{IndexedDocument}
use omni_ai_v.Ingestion.Chunks.{LoadedDocumentPart}
use omni_ai_v.Ingestion.Worker.{
  Pipeline, Store, StoredChunk, stored, numbered, text_of, store_batch, unless_raised, store_from,
  store_chunks,
}

numbered-append :
    (d : IndexedDocument) (start : ℕ) (xs ys : List LoadedDocumentPart)
    → numbered d start (xs ++ ys) ≡ numbered d start xs ++ numbered d (start + length xs) ys
unfolding numbered
numbered-append d start [] ys = ap (λ i. numbered d i ys) (omega arith)
numbered-append d start (x ∷ xs) ys =
    ap (λ cs. stored d start x ∷ cs)
      (numbered-append d (suc start) xs ys
        ∙ ap (λ i. numbered d (suc start) xs ++ numbered d i ys) (omega arith))

abbrev pub is_nil : List LoadedDocumentPart → Bool
is_nil [] = true
is_nil (x ∷ xs) = false

-- The chunks are stored as far as the loop came, which is to the end if nothing was raised.
record Added (d : IndexedDocument) (start : ℕ) (xs : List LoadedDocumentPart)
    (before : List StoredChunk) (r : Option String × Store) : Type 0 where
  done : List LoadedDocumentPart
  rest : List LoadedDocumentPart
  parted : done ++ rest ≡ xs
  added : r.1.chunks ≡ before ++ numbered d start done
  finished : is_some r.0 || is_nil rest ≡ true

whole_of :
    (xs done rest : List LoadedDocumentPart) → is_nil rest ≡ true → done ++ rest ≡ xs → done ≡ xs
whole_of xs done [] n q = sym (append-nil done) ∙ q
whole_of xs done (r ∷ rs) n q = absurd (cc n)

nothing-Added :
    (d : IndexedDocument) (start : ℕ) (xs : List LoadedDocumentPart) (error : String) (s : Store)
    → Added d start xs s.chunks (some error, s)
unfolding numbered
nothing-Added d start xs error s = record {
  done = [];
  rest = xs;
  parted = refl;
  added = sym (append-nil s.chunks);
  finished = refl;
}

store_batch-Added :
    (p : Pipeline) (now : ℕ) (d : IndexedDocument) (total start : ℕ)
    (batch : List LoadedDocumentPart) (s : Store)
    → Added d start batch s.chunks (store_batch p now d total start batch s)
unfolding store_batch
store_batch-Added p now d total start batch s = elim (Option-cases (p.encode (map text_of batch))) [
  | inr (error, e) ↦ rw e (nothing-Added d start batch error s)
  | inl e ↦ rw e (elim (Option-cases (p.add start)) [
    | inr (error, f) ↦ rw f (nothing-Added d start batch error _)
    | inl f ↦ rw f (record {
      done = batch;
      rest = [];
      parted = append-nil batch;
      added = refl;
      finished = refl;
    })
  ])
]

-- A turn that adds its whole batch, and then the turns for the rest.
unless_raised-Added :
    (d : IndexedDocument) (start : ℕ) (xs ys : List LoadedDocumentPart) (before : List StoredChunk)
    (turn rest : Option String × Store)
    → Added d start xs before turn
    → Added d (start + length xs) ys turn.1.chunks rest
    → Added d start (xs ++ ys) before (unless_raised turn rest)
unless_raised-Added d start xs ys before (some error, s) rest h k = record {
  done = h.done;
  rest = h.rest ++ ys;
  parted = sym (append_assoc h.done h.rest ys) ∙ ap (λ l. l ++ ys) h.parted;
  added = h.added;
  finished = refl;
}
unless_raised-Added d start xs ys before (none, s) rest h k =
    let whole : h.done ≡ xs = whole_of xs h.done h.rest h.finished h.parted in
    record {
      done = xs ++ k.done;
      rest = k.rest;
      parted = append_assoc xs k.done k.rest ∙ ap (λ l. xs ++ l) k.parted;
      added =
          k.added
          ∙ ap (λ l. l ++ numbered d (start + length xs) k.done)
              (h.added ∙ ap (λ l. before ++ numbered d start l) whole)
          ∙ append_assoc before (numbered d start xs) (numbered d (start + length xs) k.done)
          ∙ ap (λ l. before ++ l) (sym (numbered-append d start xs k.done));
      finished = k.finished;
    }

drop_or_full : (n : ℕ) (xs : List LoadedDocumentPart) → (drop n xs ≡ []) ⊎ (length (take n xs) ≡ n)
drop_or_full zero xs = inr refl
drop_or_full (suc n) [] = inl refl
drop_or_full (suc n) (x ∷ xs) = elim (drop_or_full n xs) [ inl e ↦ inl e | inr e ↦ inr (ap suc e) ]

module _ (p : Pipeline) (now : ℕ) (d : IndexedDocument) (total : ℕ) where
  none_left :
      (fuel start i : ℕ) (s : Store)
      → Added d i [] s.chunks (store_from p now d total fuel start [] s)
  unfolding store_from numbered
  none_left zero start i s = record {
    done = [];
    rest = [];
    parted = refl;
    added = sym (append-nil s.chunks);
    finished = refl;
  }
  none_left (suc fuel) start i s = record {
    done = [];
    rest = [];
    parted = refl;
    added = sym (append-nil s.chunks);
    finished = refl;
  }

  store_from-Added :
      (fuel start : ℕ) (xs : List LoadedDocumentPart) (s : Store)
      → length xs ≤ fuel
      → Added d start xs s.chunks (store_from p now d total fuel start xs s)
  unfolding store_from
  store_from-Added fuel start [] s h = none_left fuel start start s
  store_from-Added zero start (x ∷ xs) s h = absurd (omega arith)
  store_from-Added (suc fuel) start (x ∷ xs) s h =
      let size = max 1 p.add_batch_size in
      let batch = take size (x ∷ xs) in
      let left = drop size (x ∷ xs) in
      let turn = store_batch p now d total start batch s in
      let rest : Added d (start + length batch) left turn.1.chunks
          (store_from p now d total fuel (start + size) left turn.1) =
        elim (drop_or_full size (x ∷ xs)) [
          | inl e ↦ rw e (none_left fuel (start + size) (start + length batch) turn.1)
          | inr e ↦ rw e (
              store_from-Added fuel (start + size) left turn.1
                (omega (arith, length-drop size (x ∷ xs))))
        ] in
      subst
        (λ ys.
          Added d start ys s.chunks
            (unless_raised turn (store_from p now d total fuel (start + size) left turn.1)))
        (take-append-drop size (x ∷ xs))
        (unless_raised-Added d start batch left s.chunks turn _
          (store_batch-Added p now d total start batch s) rest)

store_chunks-Added :
    (p : Pipeline) (now : ℕ) (d : IndexedDocument) (xs : List LoadedDocumentPart) (s : Store)
    → Added d 0 xs s.chunks (store_chunks p now d xs s)
unfolding store_chunks numbered
store_chunks-Added p now d [] s = record {
  done = [];
  rest = [];
  parted = refl;
  added = sym (append-nil s.chunks);
  finished = refl;
}
store_chunks-Added p now d (x ∷ xs) s =
    store_from-Added p now d (length (x ∷ xs)) (length (x ∷ xs)) 0 (x ∷ xs) _ (omega arith)

-- Whatever the embedding model and the vector store answer, the chunks that were added are the
-- first ones, numbered from 0 and in order.
pub store_chunks_prefix :
    (p : Pipeline) (now : ℕ) (d : IndexedDocument) (xs : List LoadedDocumentPart) (s : Store)
    → (done : List LoadedDocumentPart) × (rest : List LoadedDocumentPart) × (done ++ rest ≡ xs)
      × ((store_chunks p now d xs s).1.chunks ≡ s.chunks ++ numbered d 0 done)
store_chunks_prefix p now d xs s =
    let a = store_chunks-Added p now d xs s in (a.done, a.rest, a.parted, a.added)

-- If nothing is raised, all chunks are added, for every batch size.
pub store_chunks_whole :
    (p : Pipeline) (now : ℕ) (d : IndexedDocument) (xs : List LoadedDocumentPart) (s : Store)
    → (store_chunks p now d xs s).0 ≡ none
    → (store_chunks p now d xs s).1.chunks ≡ s.chunks ++ numbered d 0 xs
store_chunks_whole p now d xs s h =
    let a = store_chunks-Added p now d xs s in
    let finished : is_nil a.rest ≡ true =
      subst (λ o. is_some o || is_nil a.rest ≡ true) h a.finished in
    a.added ∙ ap (λ l. s.chunks ++ numbered d 0 l) (whole_of xs a.done a.rest finished a.parted)
