-- ===== src/Meetings/Bound.antt =====
-- The promise of AtamuraOKK/scoring/meetings/chunking.py: no input makes a chunk exceed the cap.
use Prim.Native.Char.{Char}
use Prim.Native.String.{◌++◌, count}
use Prim.Native.String.count
use text.Mathlib.TextLemmas.{length-append}
use mathlib.Core.List.{◌++◌ as followed_by}
use atamura_okk.Base.{
  ℕ, zero, suc, ◌+◌, ◌-◌, ◌≤◌, ◌<◌, ◌≡◌, refl, sym, inl, inr, String, false, ◌&&◌, some, List, [],
  ◌∷◌, leb, ltb, ◌==◌, str_eq, arith, All, Bool-cases, leb→le,
}
use atamura_okk.Meetings.Chunking.{
  Text, push, sentences, cut_from, Packed, flush, spaced, pack_one, pack, parts_of, pack_sentences,
  split_long_line, lines_from, join_lines, is_nonempty, last_lines, Chunked, piece_len, reseed,
  chunk_one, chunk_lines, split_all, finished, is_blank, chunk_transcript,
}

module _ (m : ℕ) (positive : 0 < m) where
  abbrev IsShort : String → Type 0
  IsShort s = count s ≤ m

  All-join :
      (xs ys : List String) → All IsShort xs → All IsShort ys → All IsShort (followed_by xs ys)
  All-join [] ys h k = k
  All-join (x ∷ xs) ys h k = (h.0, All-join xs ys h.1 k)

  -- The first piece has room for `room` characters, the others for `m`.
  abbrev IsCut : ℕ → List String → Type 0
  IsCut room [] = Unit {0}
  IsCut room (p ∷ ps) = (count p ≤ room) × All IsShort ps

  push-IsCut :
      (room : ℕ) (c : Char) (ps : List String) → IsCut room ps → IsCut (suc room) (push c ps)
  push-IsCut room c [] h = (omega (arith, count.cons c ""), tt)
  push-IsCut room c (p ∷ ps) h = (omega (arith, count.cons c p, h.0), h.1)

  cut-All : (room : ℕ) → room ≤ m → (ps : List String) → IsCut room ps → All IsShort ps
  cut-All room le [] h = tt
  cut-All room le (p ∷ ps) h = (omega (arith, h.0, le), h.1)

  cut_from-IsCut : (room : ℕ) (s : String) → IsCut room (cut_from m room s)
  unfolding cut_from
  cut_from-IsCut room String.[] = tt
  cut_from-IsCut (suc room) (String.◌∷◌ c s) =
      push-IsCut room c (cut_from m room s) (cut_from-IsCut room s)
  cut_from-IsCut zero (String.◌∷◌ c s) = (
    omega arith,
    cut-All (suc (m - 1)) (omega (arith, positive)) (push c (cut_from m (m - 1) s))
        (push-IsCut (m - 1) c (cut_from m (m - 1) s) (cut_from-IsCut (m - 1) s)),
  )

  -- Every piece fits, and so does the one in progress.
  abbrev IsPacked : Packed → Type 0
  IsPacked p = All IsShort p.pieces × IsShort p.current

  flush-All :
      (current : String) (ps : List String)
      → All IsShort ps
      → IsShort current
      → All IsShort (flush current ps)
  flush-All current ps h k = elim (Bool-cases (str_eq current "")) [
    | inl e ↦ rw e h
    | inr e ↦ rw e (All-join ps (current ∷ []) h (k, tt))
  ]

  pack_one-IsPacked : (w : String) (p : Packed) → IsPacked p → IsPacked (pack_one m w p)
  unfolding pack_one
  pack_one-IsPacked w p (h, k) = elim (Bool-cases (ltb m (count w))) [
    | inl e ↦ rw e (
      All-join (flush p.current p.pieces) (cut_from m m w) (flush-All p.current p.pieces h k)
          (cut-All m (omega arith) (cut_from m m w) (cut_from-IsCut m w)),
      omega arith,
    )
    | inr e ↦ elim (Bool-cases (ltb m (count (spaced p.current w)))) [
      | inl f ↦ rw e (rw f (All-join p.pieces (p.current ∷ []) h (k, tt), ground arith))
      | inr f ↦ rw e (rw f (h, ground arith))
    ]
  ]

  pack-IsPacked : (ws : List String) (p : Packed) → IsPacked p → IsPacked (pack m ws p)
  unfolding pack
  pack-IsPacked [] p h = h
  pack-IsPacked (w ∷ ws) p h = pack-IsPacked ws (pack_one m w p) (pack_one-IsPacked w p h)

  pack_sentences-IsPacked :
      (x : Text) (ss : List String) (p : Packed) → IsPacked p → IsPacked (pack_sentences x m ss p)
  unfolding pack_sentences
  pack_sentences-IsPacked x [] p h = h
  pack_sentences-IsPacked x (s ∷ ss) p h =
      pack_sentences-IsPacked x ss (pack m (parts_of x m s) p) (pack-IsPacked (parts_of x m s) p h)

  split_long_line-All : (x : Text) (line : String) → All IsShort (split_long_line x m line)
  unfolding split_long_line
  split_long_line-All x line = elim (Bool-cases (leb (count line) m)) [
    | inl e ↦ rw e (leb→le (count line) m e, tt)
    | inr e ↦
        let start : Packed = record { pieces = []; current = "" } in
        let (h, k) = pack_sentences-IsPacked x (sentences x line) start (tt, omega arith) in
        rw e (flush-All (pack_sentences x m (sentences x line) start).current _ h k)
  ]

  split_all-All : (x : Text) (ls : List String) → All IsShort (split_all x m ls)
  unfolding split_all
  split_all-All x [] = tt
  split_all-All x (l ∷ ls) =
      All-join (split_long_line x m l) (split_all x m ls) (split_long_line-All x l)
        (split_all-All x ls)

  -- The running length is the length of the chunk in progress, which fits.
  abbrev IsChunked : Chunked → Type 0
  IsChunked st =
      All IsShort st.chunks × (st.cur_len ≡ count (join_lines st.current)) × (st.cur_len ≤ m)

  count-join :
      (xs : List String) (l : String)
      → count (join_lines (followed_by xs (l ∷ []))) ≡ count (join_lines xs) + piece_len xs l
  unfolding join_lines
  count-join [] l = omega arith
  count-join (x ∷ []) l = omega (arith, length-append x ("\n" ++ l), length-append "\n" l)
  count-join (x ∷ y ∷ ys) l = omega (
    arith,
    length-append x ("\n" ++ join_lines (y ∷ followed_by ys (l ∷ []))),
    length-append "\n" (join_lines (y ∷ followed_by ys (l ∷ []))),
    length-append x ("\n" ++ join_lines (y ∷ ys)),
    length-append "\n" (join_lines (y ∷ ys)),
    count-join (y ∷ ys) l,
  )

  fits :
      (current : List String) (l : String) (n : ℕ)
      → n ≡ count (join_lines current)
      → (is_nonempty current && ltb m (n + piece_len current l)) ≡ false
      → IsShort l
      → n + piece_len current l ≤ m
  unfolding join_lines
  fits [] l n len e short = omega (arith, len, short)
  fits (x ∷ xs) l n len e short = ground arith

  reseed-IsChunked :
      (seed : List String) (l : String) (cs : List String)
      → IsShort l
      → All IsShort cs
      → IsChunked (reseed m seed l cs)
  unfolding join_lines
  reseed-IsChunked seed l cs short h =
      elim (Bool-cases (is_nonempty seed && ltb m (count (join_lines seed) + piece_len seed l))) [
        | inl e ↦ rw e (h, refl, short)
        | inr e ↦ rw e (h, sym (count-join seed l), fits seed l _ refl e short)
      ]

  chunk_one-IsChunked :
      (overlap : ℕ) (l : String) (st : Chunked)
      → IsShort l
      → IsChunked st
      → IsChunked (chunk_one m overlap l st)
  unfolding chunk_one join_lines
  chunk_one-IsChunked overlap l st short (h, len, le) =
      elim (Bool-cases (is_nonempty st.current && ltb m (st.cur_len + piece_len st.current l))) [
        | inl e ↦ rw e (
            reseed-IsChunked (last_lines overlap st.current) l _ short
              (All-join st.chunks (join_lines st.current ∷ []) h (omega (arith, len, le), tt)))
        | inr e ↦ rw e (
          h,
          omega (arith, len, count-join st.current l),
          fits st.current l st.cur_len len e short,
        )
      ]

  chunk_lines-IsChunked :
      (overlap : ℕ) (ls : List String) (st : Chunked)
      → All IsShort ls
      → IsChunked st
      → IsChunked (chunk_lines m overlap ls st)
  unfolding chunk_lines
  chunk_lines-IsChunked overlap [] st short h = h
  chunk_lines-IsChunked overlap (l ∷ ls) st short h =
      chunk_lines-IsChunked overlap ls (chunk_one m overlap l st) short.1
        (chunk_one-IsChunked overlap l st short.0 h)

  finished-All : (st : Chunked) → IsChunked st → All IsShort (finished st)
  finished-All st (h, len, le) = elim (Bool-cases (is_nonempty st.current)) [
    | inl e ↦ rw e (All-join st.chunks (join_lines st.current ∷ []) h (omega (arith, len, le), tt))
    | inr e ↦ rw e h
  ]

  -- Chunking with a positive cap always gives chunks, for every text and every overlap, and none of
  -- them is longer than the cap.
  pub chunk_transcript-bound :
      (x : Text) (overlap : ℕ) (text : String)
      → (chunks : List String) × (chunk_transcript x m overlap text ≡ some chunks)
        × All (λ c. count c ≤ m) chunks
  unfolding chunk_transcript join_lines
  chunk_transcript-bound x overlap text =
      let zero_cap : (m == 0) ≡ false = ground arith in
      elim (Bool-cases (is_blank x text)) [
        | inl e ↦ ([], rw zero_cap (rw e refl), tt)
        | inr e ↦ elim (Bool-cases (leb (count text) m)) [
          | inl f ↦ (text ∷ [], rw zero_cap (rw e (rw f refl)), (leb→le _ _ f, tt))
          | inr f ↦
              let start : Chunked = record { chunks = []; current = []; cur_len = 0 } in
              let pieces = split_all x m (lines_from x false false text) in
              (
                finished (chunk_lines m overlap pieces start),
                rw zero_cap (rw e (rw f refl)),
                finished-All (chunk_lines m overlap pieces start) (
                    chunk_lines-IsChunked overlap pieces start
                      (split_all-All x (lines_from x false false text)) (tt, refl, omega arith)),
              )
        ]
      ]
