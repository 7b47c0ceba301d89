-- ===== src/Message/Assemble/Folding.antt =====
-- c_src/parser.cc: line breaks and folded lines in `AssembleRawHeaders`.
use elixir_sippet.Ascii.{is_lws}
use elixir_sippet.Base.{
  ℕ, Bool, true, false, [], ◌∷◌, ◌++◌, Bytes, All, ◌≡◌, ◌≢◌, refl, sym, arith, ◌==◌, if◌then◌else◌,
}
use elixir_sippet.Message.Assemble.Join.{join, line_end, prepend-nil, assemble_raw_headers-join}
use elixir_sippet.Message.Assemble.{is_break, assemble_raw_headers}
use elixir_sippet.Trim.Trimmed.{EndsOutside}

-- The text with a carriage return in front of each line feed.
abbrev pub crlf : Bytes → Bytes
crlf [] = []
crlf (c ∷ s) = if c == b'\n' then b'\r' ∷ b'\n' ∷ crlf s else c ∷ crlf s

line_end-crlf : (s : Bytes) → line_end (crlf s) ≡ line_end s
unfolding line_end is_lws
line_end-crlf [] = refl
line_end-crlf (c ∷ s) = ground arith

join-crlf : (s : Bytes) → All (λ c. c ≢ b'\r') s → join false (crlf s) ≡ join false s
unfolding join
join-crlf [] h = refl
join-crlf (c ∷ s) (hc, h) = ground (arith, line_end-crlf s, join-crlf s h)

-- A text without carriage returns gives the same lines when each of its line feeds gets one.
pub assemble_raw_headers-crlf :
    (s : Bytes) → All (λ c. c ≢ b'\r') s → assemble_raw_headers (crlf s) ≡ assemble_raw_headers s
assemble_raw_headers-crlf s h =
    rw (assemble_raw_headers-join (crlf s), assemble_raw_headers-join s) (join-crlf s h)

join_tails :
    (returned : Bool) (x : ℕ) (a t u : Bytes)
    → EndsOutside is_break (x ∷ a)
    → join false t ≡ join false u
    → join returned (x ∷ (a ++ t)) ≡ join returned (x ∷ (a ++ u))
unfolding join line_end
join_tails returned x [] t u h e = ground arith
join_tails returned x (y ∷ a) t u h e =
    ground (arith, join_tails true y a t u h e, join_tails false y a t u h e)

join_fold :
    (c : ℕ) (s : Bytes) → is_lws c ≡ true → join false (b'\r' ∷ b'\n' ∷ c ∷ s) ≡ join false (c ∷ s)
unfolding join line_end is_lws
join_fold c s h = rw h (sym (prepend-nil (join false (c ∷ s))))

-- A line break in front of a blank, inside a line, makes no difference: the line is folded there.
pub assemble_raw_headers-fold :
    (a : Bytes) (c : ℕ) (s : Bytes)
    → EndsOutside is_break a
    → is_lws c ≡ true
    → assemble_raw_headers (a ++ b'\r' ∷ b'\n' ∷ c ∷ s) ≡ assemble_raw_headers (a ++ c ∷ s)
assemble_raw_headers-fold a c s h b =
    rw
      (
        assemble_raw_headers-join (a ++ b'\r' ∷ b'\n' ∷ c ∷ s),
        assemble_raw_headers-join (a ++ c ∷ s),
      )
      (fold a h)
  where
    fold :
        (a : Bytes)
        → EndsOutside is_break a
        → join false (a ++ b'\r' ∷ b'\n' ∷ c ∷ s) ≡ join false (a ++ c ∷ s)
    fold [] h = join_fold c s b
    fold (x ∷ a) h = join_tails false x a (b'\r' ∷ b'\n' ∷ c ∷ s) (c ∷ s) h (join_fold c s b)
