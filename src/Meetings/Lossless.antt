-- ===== src/Meetings/Lossless.antt =====
-- Without overlap, chunking loses no line (AtamuraOKK/scoring/meetings/chunking.py).
use Prim.Native.String.{◌++◌, count}
use text.Mathlib.TextLemmas.{append_assoc}
use mathlib.Core.List.{◌++◌ as followed_by, append_assoc as list_assoc, append-nil as list_nil}
use atamura_okk.Base.{
  ℕ, ◌+◌, ◌<◌, ◌≡◌, refl, sym, ap, ◌∙◌, inl, inr, String, false, some, List, [], ◌∷◌, leb, ltb,
  ◌==◌, arith, Bool-cases,
}
use atamura_okk.Meetings.Chunking.{
  Text, lines_from, join_lines, last_lines, Chunked, piece_len, chunk_one, chunk_lines, split_all,
  finished, is_blank, chunk_transcript,
}

-- A line behind lines that are there.
join-snoc :
    (y : String) (ys : List String) (l : String)
    → join_lines (followed_by (y ∷ ys) (l ∷ [])) ≡ join_lines (y ∷ ys) ++ ("\n" ++ l)
unfolding join_lines
join-snoc y [] l = refl
join-snoc y (z ∷ zs) l =
    ap (λ t. y ++ ("\n" ++ t)) (join-snoc z zs l)
    ∙ (ap (λ t. y ++ t) (sym (append_assoc "\n" (join_lines (z ∷ zs)) ("\n" ++ l)))
        ∙ sym (append_assoc y ("\n" ++ join_lines (z ∷ zs)) ("\n" ++ l)))

-- Joining a group first makes no difference.
join-group :
    (xs : List String) (a b : String) (ls : List String)
    → join_lines (followed_by xs ((a ++ ("\n" ++ b)) ∷ ls))
      ≡ join_lines (followed_by xs (a ∷ b ∷ ls))
unfolding join_lines
join-group [] a b [] = refl
join-group [] a b (l ∷ ls) =
    append_assoc a ("\n" ++ b) ("\n" ++ join_lines (l ∷ ls))
    ∙ ap (λ t. a ++ t) (append_assoc "\n" b ("\n" ++ join_lines (l ∷ ls)))
join-group (x ∷ []) a b ls = ap (λ t. x ++ ("\n" ++ t)) (join-group [] a b ls)
join-group (x ∷ y ∷ ys) a b ls = ap (λ t. x ++ ("\n" ++ t)) (join-group (y ∷ ys) a b ls)

last_lines-none : (xs : List String) → last_lines 0 xs ≡ []
unfolding last_lines
last_lines-none [] = refl
last_lines-none (x ∷ xs) = ground (arith, last_lines-none xs)

module _ (m : ℕ) where
  -- A line that starts a chunk, or joins the chunk in progress.
  chunk_one-join :
      (chunks current : List String) (n : ℕ) (l : String) (ls : List String)
      → let st : Chunked = record { chunks = chunks; current = current; cur_len = n } in
        join_lines (followed_by (finished (chunk_one m 0 l st)) ls)
        ≡ join_lines (followed_by (finished st) (l ∷ ls))
  unfolding chunk_one
  chunk_one-join chunks [] n l ls =
      ap join_lines (list_assoc chunks (join_lines (l ∷ []) ∷ []) ls) ∙ unfold join_lines in refl
  chunk_one-join chunks (y ∷ ys) n l ls =
      let J = join_lines (y ∷ ys) in
      elim (Bool-cases (ltb m (n + piece_len (y ∷ ys) l))) [
        | inl e ↦ rw e (
            rw (last_lines-none (y ∷ ys)) (
              ap join_lines (list_assoc (followed_by chunks (J ∷ [])) (join_lines (l ∷ []) ∷ []) ls)
              ∙ unfold join_lines in refl))
        | inr e ↦ rw e (
            rw (join-snoc y ys l) (
              ap join_lines (list_assoc chunks ((J ++ ("\n" ++ l)) ∷ []) ls)
              ∙ (join-group chunks J l ls
                  ∙ ap join_lines (sym (list_assoc chunks (J ∷ []) (l ∷ ls))))))
      ]

  chunk_lines-join :
      (ls : List String) (st : Chunked)
      → join_lines (finished (chunk_lines m 0 ls st)) ≡ join_lines (followed_by (finished st) ls)
  unfolding chunk_lines
  chunk_lines-join [] st = ap join_lines (sym (list_nil (finished st)))
  chunk_lines-join (l ∷ ls) st =
      chunk_lines-join ls (chunk_one m 0 l st) ∙ chunk_one-join st.chunks st.current st.cur_len l ls

  -- Without overlap and with a cap of at least 1, the chunks of a text that is not blank and is longer
  -- than the cap, joined again, are the lines of the text with the pieces of the lines that are too long, all of them and in order.
  pub chunk_transcript-lossless :
      (x : Text) (text : String)
      → 0 < m
      → is_blank x text ≡ false
      → m < count text
      → (chunks : List String) × (chunk_transcript x m 0 text ≡ some chunks)
        × (join_lines chunks ≡ join_lines (split_all x m (lines_from x false false text)))
  unfolding chunk_transcript
  chunk_transcript-lossless x text positive full long =
      let zero_cap : (m == 0) ≡ false = ground arith in
      let over : leb (count text) m ≡ false = ground arith in
      let start : Chunked = record { chunks = []; current = []; cur_len = 0 } in
      let pieces = split_all x m (lines_from x false false text) in
      (
        finished (chunk_lines m 0 pieces start),
        rw zero_cap (rw full (rw over refl)),
        chunk_lines-join pieces start,
      )
