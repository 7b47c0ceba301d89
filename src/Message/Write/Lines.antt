-- ===== src/Message/Write/Lines.antt =====
-- c_src/parser.cc: `AssembleRawHeaders` on lines that need no putting together.
use elixir_sippet.Ascii.{is_lws}
use elixir_sippet.Base.{
  true, false, not, List, [], ◌∷◌, ◌++◌, some, Bytes, All, All-append, ◌≡◌, ◌≢◌, refl, ap, ◌∙◌,
  arith, append_assoc,
}
use elixir_sippet.Message.Assemble.Join.{
  join, line_end, prepend, join-append, assemble_raw_headers-join,
}
use elixir_sippet.Message.Assemble.{is_break, assemble_raw_headers}
use elixir_sippet.Message.Write.{lines_text}

-- No line break.
abbrev pub OneLine : Bytes → Type 0
OneLine s = All (λ c. (not (is_break c)) ≡ true) s

-- One line that does not begin with a blank, and is not empty.
abbrev pub Unfolded : Bytes → Type 0
Unfolded [] = ⊥
Unfolded (c ∷ s) = (is_lws c ≡ false) × OneLine (c ∷ s)

join-feed : (s : Bytes) → join false (b'\n' ∷ s) ≡ prepend (line_end s) (join false s)
unfolding join
join-feed s = refl

line_end-Unfolded : (l s : Bytes) → Unfolded l → line_end (l ++ s) ≡ b'\n' ∷ []
unfolding line_end is_lws
line_end-Unfolded [] s h = absurd h
line_end-Unfolded (c ∷ l) s (h, _) = rw h refl

line_end-lines :
    (ls : List Bytes) → All Unfolded ls → line_end (lines_text ls ++ b'\n' ∷ []) ≡ b'\n' ∷ []
line_end-lines [] h = unfold line_end is_lws in refl
line_end-lines (l ∷ ls) (h, _) =
    ap line_end (append_assoc l (b'\n' ∷ lines_text ls) (b'\n' ∷ []))
    ∙ line_end-Unfolded l (b'\n' ∷ (lines_text ls ++ b'\n' ∷ [])) h

Unfolded-OneLine : (l : Bytes) → Unfolded l → OneLine l
Unfolded-OneLine [] h = tt
Unfolded-OneLine (c ∷ l) (_, h) = h

-- One line in front of lines that need no putting together.
join-line :
    (l : Bytes) (ls : List Bytes)
    → OneLine l
    → All Unfolded ls
    → join false (lines_text ls ++ b'\n' ∷ []) ≡ some (lines_text ls)
    → join false (lines_text (l ∷ ls) ++ b'\n' ∷ []) ≡ some (lines_text (l ∷ ls))
join-line l ls one h e =
    let rest = lines_text ls ++ b'\n' ∷ [] in
    let feed : prepend (line_end rest) (join false rest) ≡ some (b'\n' ∷ lines_text ls) =
      rw (line_end-lines ls h, e) refl in
    ap (join false) (append_assoc l (b'\n' ∷ lines_text ls) (b'\n' ∷ []))
    ∙ join-append l (b'\n' ∷ rest) one
    ∙ ap (prepend l) (join-feed rest ∙ feed)

join-lines :
    (ls : List Bytes)
    → All Unfolded ls
    → join false (lines_text ls ++ b'\n' ∷ []) ≡ some (lines_text ls)
join-lines [] h = unfold join line_end in refl
join-lines (l ∷ ls) (h, hs) = join-line l ls (Unfolded-OneLine l h) hs (join-lines ls hs)

-- What `AssembleRawHeaders` makes of a first line, lines that do not begin with a blank, and an empty
-- line: the same lines.
pub assemble_raw_headers-lines :
    (l : Bytes) (ls : List Bytes)
    → OneLine l
    → All Unfolded ls
    → assemble_raw_headers (lines_text (l ∷ ls) ++ b'\n' ∷ []) ≡ some (lines_text (l ∷ ls))
assemble_raw_headers-lines l ls one h =
    assemble_raw_headers-join (lines_text (l ∷ ls) ++ b'\n' ∷ [])
    ∙ join-line l ls one h (join-lines ls h)

OneLine-no_return : (s : Bytes) → OneLine s → All (λ c. c ≢ b'\r') s
OneLine-no_return [] h = tt
OneLine-no_return (c ∷ s) (hc, h) = (ground arith, OneLine-no_return s h)

pub lines_text-no_return : (ls : List Bytes) → All OneLine ls → All (λ c. c ≢ b'\r') (lines_text ls)
lines_text-no_return [] h = tt
lines_text-no_return (l ∷ ls) (h, hs) =
    All-append (λ c. c ≢ b'\r') l (b'\n' ∷ lines_text ls) (OneLine-no_return l h)
      (omega arith, lines_text-no_return ls hs)

pub All-OneLine : (ls : List Bytes) → All Unfolded ls → All OneLine ls
All-OneLine [] h = tt
All-OneLine (l ∷ ls) (h, hs) = (Unfolded-OneLine l h, All-OneLine ls hs)
