-- ===== src/Unquote/RoundTrip.antt =====
-- c_src/utils.cc: unquoting and quoting.
use elixir_sippet.Ascii.{is_quote}
use elixir_sippet.Base.{
  ℕ, ◌+◌, ◌≤◌, Bool, true, false, not, ◌&&◌, ◌||◌, [], ◌∷◌, ◌++◌, some, Bytes, length, ◌≡◌, refl,
  ◌∙◌, arith, append_assoc, append-nil, ◌==◌, if◌then◌else◌, ==_iff, length-append,
}
use elixir_sippet.Unquote.{
  unescape, split_last, unquote_body, unquote_impl, strict_unquote, unquote,
}

-- A text with a backslash in front of each quote mark and each backslash.
abbrev pub escape : ℕ → Bytes → Bytes
escape q [] = []
escape q (c ∷ s) = if c == q || c == b'\\' then b'\\' ∷ c ∷ escape q s else c ∷ escape q s

-- The quoted-string for a text.
abbrev pub quoted : ℕ → Bytes → Bytes
quoted q s = q ∷ (escape q s ++ q ∷ [])

unescape-escape :
    (strict : Bool) (q : ℕ) (s out : Bytes)
    → unescape strict q (escape q s) false out ≡ some (out ++ s)
unfolding unescape
unescape-escape strict q [] out = ground (arith, append-nil out)
unescape-escape strict q (c ∷ s) out =
    ground (arith, unescape-escape strict q s (out ++ c ∷ []), append_assoc out (c ∷ []) s)

pub split_last-append : (c : ℕ) (s : Bytes) (d : ℕ) → split_last c (s ++ d ∷ []) ≡ (c ∷ s, d)
unfolding split_last
split_last-append c [] d = refl
split_last-append c (x ∷ s) d = rw (split_last-append x s d)

unquote_body-append :
    (strict : Bool) (q : ℕ) (s : Bytes)
    → unquote_body strict q (s ++ q ∷ []) ≡ unescape strict q s false []
unquote_body-append strict q [] = unfold unquote_body split_last in rw ((==_iff q q).1 refl)
unquote_body-append strict q (c ∷ s) =
    unfold unquote_body in rw (split_last-append c s q, (==_iff q q).1 refl)

unquote_impl-quoted :
    (strict : Bool) (q : ℕ) (s : Bytes)
    → is_quote q ≡ true
    → (strict && not (q == b'"')) ≡ false
    → unquote_impl strict (quoted q s) ≡ some s
unfolding unquote_impl
unquote_impl-quoted strict q s h k =
    rw (h, k) (unquote_body-append strict q (escape q s) ∙ unescape-escape strict q s [])

-- Unquoting a text that was put between quote marks, with a backslash in front of each quote mark
-- and each backslash in it, gives the text back.
pub unquote-quoted : (q : ℕ) (s : Bytes) → is_quote q ≡ true → unquote (quoted q s) ≡ s
unfolding unquote
unquote-quoted q s h = rw (unquote_impl-quoted false q s h refl, unquote)

-- Strict unquoting gives back a text that was put between double quotes, with a backslash in front
-- of each double quote and each backslash in it.
pub strict_unquote-quoted : (s : Bytes) → strict_unquote (quoted b'"' s) ≡ some s
unfolding strict_unquote
strict_unquote-quoted s = unquote_impl-quoted true b'"' s (unfold is_quote in refl) refl

length-unescape :
    (strict : Bool) (q : ℕ) (s : Bytes) (prev : Bool) (out r : Bytes)
    → unescape strict q s prev out ≡ some r
    → length r ≤ length out + length s
unfolding unescape
length-unescape strict q [] prev out r h = ground arith
length-unescape strict q (c ∷ s) prev out r h =
    let later =
      length-unescape strict q s (c == b'\\' && not prev)
        (if c == b'\\' && not prev then out else out ++ c ∷ []) r in
    ground (arith, later, length-append out (c ∷ []))
