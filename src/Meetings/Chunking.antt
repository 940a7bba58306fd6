-- ===== src/Meetings/Chunking.antt =====
-- AtamuraOKK/scoring/meetings/chunking.py: a transcript in pieces that fit the model.
-- Python's tests on characters (`str.isspace`, the line boundaries of `splitlines`) are parameters.
use Prim.Native.Char.{Char, code}
use Prim.Native.String.{◌++◌, count}
use atamura_okk.Base.{
  ℕ, zero, suc, ◌+◌, ◌-◌, String, Bool, true, false, ◌&&◌, ◌||◌, Option, none, some, List, [], ◌∷◌,
  leb, ltb, ◌==◌, str_eq, if◌then◌else◌,
}
use mathlib.Core.List.{◌++◌ as followed_by}

pub record Text : Type 0 where
  pub is_space : Char → Bool
  pub is_line_end : Char → Bool

-- A character in front of the first piece.
abbrev pub push : Char → List String → List String
push c [] = String.◌∷◌ c String.[] ∷ []
push c (p ∷ ps) = String.◌∷◌ c p ∷ ps

-- `[.!?…]`
abbrev is_sentence_end : Char → Bool
is_sentence_end c = (code c == 46) || ((code c == 33) || ((code c == 63) || (code c == 8230)))

-- `_SENTENCE_END.split`: a run of whitespace behind a sentence's end is a separator. The two
-- flags say that a sentence has just ended, and that the separator is being skipped.
unfoldable pub sentences_from : Text → Bool → Bool → String → List String
sentences_from x ended skipping String.[] = "" ∷ []
sentences_from x ended skipping (String.◌∷◌ c s) =
    let skipped = sentences_from x false true s in
    let kept = push c (sentences_from x (is_sentence_end c) false s) in
    let split = "" ∷ sentences_from x false true s in
    if skipping && x.is_space c then skipped else if ended && x.is_space c then split else kept

abbrev pub sentences : Text → String → List String
sentences x s = sentences_from x false false s

-- `str.split()`: the maximal runs without whitespace.
unfoldable pub words_from : Text → Bool → String → List String
words_from x inside String.[] = if inside then "" ∷ [] else []
words_from x inside (String.◌∷◌ c s) =
    let rest = words_from x true s in
    let next = words_from x false s in
    if x.is_space c then (if inside then "" ∷ next else next) else push c rest

abbrev pub words : Text → String → List String
words x s = words_from x false s

-- `word[i : i + max_chars] for i in range(0, len(word), max_chars)`: `room` characters are left
-- in the current piece.
unfoldable pub cut_from : ℕ → ℕ → String → List String
cut_from m room String.[] = []
cut_from m (suc room) (String.◌∷◌ c s) = push c (cut_from m room s)
cut_from m zero (String.◌∷◌ c s) = "" ∷ push c (cut_from m (m - 1) s)

-- The pieces so far, and the piece in progress.
pub record Packed : Type 0 where
  pub pieces : List String
  pub current : String

abbrev pub flush : String → List String → List String
flush current pieces = if str_eq current "" then pieces else followed_by pieces (current ∷ [])

abbrev pub spaced : String → String → String
spaced current word = if str_eq current "" then word else current ++ (" " ++ word)

-- The body of the inner loop of `_split_long_line`.
unfoldable pub pack_one : ℕ → String → Packed → Packed
unfolding cut_from
pack_one m word p =
    if ltb m (count word)
    then record {
      pieces = followed_by (flush p.current p.pieces) (cut_from m m word);
      current = "";
    }
    else if ltb m (count (spaced p.current word))
    then record { pieces = followed_by p.pieces (p.current ∷ []); current = word }
    else record { pieces = p.pieces; current = spaced p.current word }

unfoldable pub pack : ℕ → List String → Packed → Packed
unfolding pack_one
pack m [] p = p
pack m (w ∷ ws) p = pack m ws (pack_one m w p)

-- A sentence that fits is one word of the loop.
abbrev pub parts_of : Text → ℕ → String → List String
parts_of x m sentence = if ltb m (count sentence) then words x sentence else sentence ∷ []

unfoldable pub pack_sentences : Text → ℕ → List String → Packed → Packed
unfolding pack
pack_sentences x m [] p = p
pack_sentences x m (s ∷ ss) p = pack_sentences x m ss (pack m (parts_of x m s) p)

-- `_split_long_line`
unfoldable pub split_long_line : Text → ℕ → String → List String
unfolding pack_sentences
split_long_line x m line =
    if leb (count line) m
    then line ∷ []
    else (let p = pack_sentences x m (sentences x line) (record { pieces = []; current = "" }) in
        flush p.current p.pieces)

-- `str.splitlines()`: a carriage return and a line feed behind it end one line.
unfoldable pub lines_from : Text → Bool → Bool → String → List String
lines_from x after_cr inside String.[] = if inside then "" ∷ [] else []
lines_from x after_cr inside (String.◌∷◌ c s) =
    let skipped = lines_from x false false s in
    let ended = "" ∷ lines_from x (code c == 13) false s in
    let kept = push c (lines_from x false true s) in
    if after_cr && (code c == 10) then skipped else if x.is_line_end c then ended else kept

-- `"\n".join(…)`
unfoldable pub join_lines : List String → String
join_lines [] = ""
join_lines (x ∷ []) = x
join_lines (x ∷ y ∷ ys) = x ++ ("\n" ++ join_lines (y ∷ ys))

-- `current[-overlap_lines:] if overlap_lines > 0 else []`
abbrev pub is_nonempty : List String → Bool
is_nonempty [] = false
is_nonempty (x ∷ xs) = true

unfoldable pub last_lines : ℕ → List String → List String
last_lines k [] = []
last_lines k (x ∷ xs) = let rest = last_lines k xs in if ltb k (suc (size xs)) then rest else x ∷ xs
  where
    size : List String → ℕ
    size [] = 0
    size (y ∷ ys) = suc (size ys)

pub record Chunked : Type 0 where
  pub chunks : List String
  pub current : List String
  pub cur_len : ℕ

-- The length of a line, with the line break in front of it.
abbrev pub piece_len : List String → String → ℕ
piece_len current line = count line + (if is_nonempty current then 1 else 0)

-- A line behind the seed that the last chunk leaves, unless the two together are too long.
abbrev pub reseed : ℕ → List String → String → List String → Chunked
reseed m seed line chunks =
    if is_nonempty seed && ltb m (count (join_lines seed) + piece_len seed line)
    then record { chunks = chunks; current = line ∷ []; cur_len = count line }
    else record {
      chunks = chunks;
      current = followed_by seed (line ∷ []);
      cur_len = count (join_lines seed) + piece_len seed line;
    }

-- The body of the loop of `chunk_transcript`.
unfoldable pub chunk_one : ℕ → ℕ → String → Chunked → Chunked
unfolding join_lines last_lines
chunk_one m overlap line st =
    if is_nonempty st.current && ltb m (st.cur_len + piece_len st.current line)
    then reseed m (last_lines overlap st.current) line
        (followed_by st.chunks (join_lines st.current ∷ []))
    else record {
      chunks = st.chunks;
      current = followed_by st.current (line ∷ []);
      cur_len = st.cur_len + piece_len st.current line;
    }

unfoldable pub chunk_lines : ℕ → ℕ → List String → Chunked → Chunked
unfolding chunk_one
chunk_lines m overlap [] st = st
chunk_lines m overlap (l ∷ ls) st = chunk_lines m overlap ls (chunk_one m overlap l st)

unfoldable pub split_all : Text → ℕ → List String → List String
unfolding split_long_line
split_all x m [] = []
split_all x m (l ∷ ls) = followed_by (split_long_line x m l) (split_all x m ls)

abbrev pub finished : Chunked → List String
finished st =
    if is_nonempty st.current then followed_by st.chunks (join_lines st.current ∷ []) else st.chunks

-- `not text.strip()`
unfoldable pub is_blank : Text → String → Bool
is_blank x String.[] = true
is_blank x (String.◌∷◌ c s) = x.is_space c && is_blank x s

-- `chunk_transcript`; no result stands for the `ValueError`.
unfoldable pub chunk_transcript : Text → ℕ → ℕ → String → Option (List String)
unfolding is_blank chunk_lines split_all lines_from
chunk_transcript x m overlap text =
    if m == 0
    then none
    else if is_blank x text
    then some []
    else if leb (count text) m
    then some (text ∷ [])
    else some (
        finished (
          chunk_lines m overlap (split_all x m (lines_from x false false text))
            (record { chunks = []; current = []; cur_len = 0 })))
