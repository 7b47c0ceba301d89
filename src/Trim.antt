-- ===== src/Trim.antt =====
-- c_src/utils.cc: `TrimLWS`. A pair of iterators is the text between them.
pub mod Trimmed
use elixir_sippet.Base.{ℕ, Bool, [], ◌∷◌, Bytes, if◌then◌else◌, ◌&&◌}
use elixir_sippet.Ascii.{is_lws}
use elixir_sippet.Tokenizer.{span, end_of_input}

-- `while (begin < end && p(end[-1])) --end`
unfoldable pub trim_right : (ℕ → Bool) → Bytes → Bytes
trim_right p [] = []
trim_right p (c ∷ s) =
    let kept = trim_right p s in if end_of_input kept && p c then [] else c ∷ kept

-- `while (begin < end && p(begin[0])) ++begin`
unfoldable pub trim_left : (ℕ → Bool) → Bytes → Bytes
unfolding span
trim_left p s = (span p s).1

unfoldable pub trim_lws : Bytes → Bytes
unfolding trim_left trim_right is_lws
trim_lws s = trim_right is_lws (trim_left is_lws s)
