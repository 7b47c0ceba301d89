-- ===== src/Field/Comment.antt =====
-- c_src/parser.cc: `ParseComment` and `ParseUri` on well-formed texts.
use elixir_sippet.Base.{
  ℕ, suc, true, not, [], ◌∷◌, ◌++◌, Option, none, some, Bytes, All, ok, ◌≡◌, ◌≢◌, refl, sym,
  append-nil, ap, ◌∙◌, arith, append_assoc, ◌==◌,
}
use elixir_sippet.Field.{close_paren, parse_comment, parse_uri}
use elixir_sippet.Tokenizer.Span.{span-append}
use elixir_sippet.Tokenizer.{span, skip_to, skip_one}
use elixir_sippet.Trim.{trim_lws}

-- A text in which every parenthesis is closed.
pub data Balanced : Bytes → Type 0 where
  nothing : Balanced []
  plain : {c : ℕ} {s : Bytes} → c ≢ b'(' → c ≢ b')' → Balanced s → Balanced (c ∷ s)
  nested : {s t : Bytes} → Balanced s → Balanced t → Balanced (b'(' ∷ (s ++ b')' ∷ t))

-- A text put in front of a comment.
abbrev before : Bytes → Option (Bytes × Bytes) → Option (Bytes × Bytes)
before s none = none
before s (some (comment, left)) = some (s ++ comment, left)

before-before :
    (s t : Bytes) (r : Option (Bytes × Bytes)) → before s (before t r) ≡ before (s ++ t) r
before-before s t none = refl
before-before s t (some (comment, left)) = ap (λ u. some (u, left)) (sym (append_assoc s t comment))

before-nil : (r : Option (Bytes × Bytes)) → r ≡ before [] r
before-nil none = refl
before-nil (some (comment, left)) = refl

close_paren-plain :
    (n c : ℕ) (s : Bytes)
    → c ≢ b'('
    → c ≢ b')'
    → close_paren (suc n) (c ∷ s) ≡ before (c ∷ []) (close_paren (suc n) s)
unfolding close_paren
close_paren-plain n c s h k = ground arith

close_paren-open :
    (n : ℕ) (s : Bytes)
    → close_paren (suc n) (b'(' ∷ s) ≡ before (b'(' ∷ []) (close_paren (suc (suc n)) s)
unfolding close_paren
close_paren-open n s = ground arith

close_paren-close :
    (n : ℕ) (s : Bytes)
    → close_paren (suc (suc n)) (b')' ∷ s) ≡ before (b')' ∷ []) (close_paren (suc n) s)
unfolding close_paren
close_paren-close n s = ground arith

-- The four parts of a nested comment.
before-nested :
    (s t : Bytes) (r : Option (Bytes × Bytes))
    → before (b'(' ∷ []) (before s (before (b')' ∷ []) (before t r)))
      ≡ before (b'(' ∷ (s ++ b')' ∷ t)) r
before-nested s t none = refl
before-nested s t (some (comment, left)) =
    ap (λ u. some (b'(' ∷ u, left)) (sym (append_assoc s (b')' ∷ t) comment))

close_paren-Balanced :
    (n : ℕ) {s : Bytes} (rest : Bytes)
    → Balanced s
    → close_paren (suc n) (s ++ rest) ≡ before s (close_paren (suc n) rest)
close_paren-Balanced n rest nothing = before-nil (close_paren (suc n) rest)
close_paren-Balanced n rest (plain {c} {s} h k b) =
    close_paren-plain n c (s ++ rest) h k
    ∙ ap (before (c ∷ [])) (close_paren-Balanced n rest b)
    ∙ before-before (c ∷ []) s (close_paren (suc n) rest)
close_paren-Balanced n rest (nested {s} {t} b d) =
    let around = λ (r : Option (Bytes × Bytes)). before (b'(' ∷ []) (before s r) in
    ap (λ u. close_paren (suc n) (b'(' ∷ u)) (append_assoc s (b')' ∷ t) rest)
    ∙ close_paren-open n (s ++ b')' ∷ (t ++ rest))
    ∙ ap (before (b'(' ∷ [])) (close_paren-Balanced (suc n) (b')' ∷ (t ++ rest)) b)
    ∙ ap around (close_paren-close n (t ++ rest))
    ∙ ap (λ r. around (before (b')' ∷ []) r)) (close_paren-Balanced n rest d)
    ∙ before-nested s t (close_paren (suc n) rest)

-- The comment of a text in balanced parentheses is the text between them, trimmed, and the
-- tokenizer stays behind the closing parenthesis, whatever follows.
pub parse_comment-Balanced :
    (s rest : Bytes)
    → Balanced s
    → parse_comment (b'(' ∷ (s ++ b')' ∷ rest)) ≡ ok (trim_lws s, rest)
unfolding parse_comment skip_to skip_one span
parse_comment-Balanced s rest b =
    let closed : close_paren 1 (s ++ b')' ∷ rest) ≡ some (s, rest) =
      close_paren-Balanced 0 (b')' ∷ rest) b ∙ (unfold close_paren in rw (append-nil s) refl) in
    rw (parse_comment, closed) refl

-- A URI in angle brackets that holds no closing bracket is read back, and the tokenizer stays
-- behind the closing bracket.
parse_uri-brackets :
    (uri rest : Bytes)
    → All (λ c. (not (b'>' == c)) ≡ true) uri
    → parse_uri (b'<' ∷ (uri ++ b'>' ∷ rest)) ≡ ok (uri, rest)
unfolding parse_uri skip_to skip_one
parse_uri-brackets uri rest h =
    rw (span-append (λ c. not (b'>' == c)) uri (b'>' ∷ rest) h refl) refl
