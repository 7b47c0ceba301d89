-- ===== src/Iterators/Split.antt =====
-- c_src/utils.cc: the sequence of values that each iterator goes through, described without the
-- iterator's state.
use elixir_sippet.Base.Yields.{Yields, filter_map, find_next-Yields}
use elixir_sippet.Base.{ℕ, List, [], ◌∷◌, Bytes}
use elixir_sippet.Iterators.Headers.{HeaderLine, header_line, headers_next, line_breaks}
use elixir_sippet.Iterators.{trimmed_value, quoted_values_next, values_next, value_quotes}
use elixir_sippet.StringTokenizer.Modes.{outside}
use elixir_sippet.StringTokenizer.Fields.{
  fields, tokens, full_get_next-Yields, quick_get_next-Yields,
}
use elixir_sippet.StringTokenizer.{get_next}

-- The trimmed fields between the delimiters that stand outside quotes, without the empty ones.
abbrev pub split_values : ℕ → Bytes → List Bytes
split_values delimiter s =
    filter_map trimmed_value (tokens (fields (delimiter ∷ []) value_quotes outside s))

-- The lines that are well-formed headers.
abbrev pub split_headers : Bytes → List HeaderLine
split_headers s = filter_map header_line (tokens (fields line_breaks [] outside s))

-- A values iterator goes through the trimmed texts between the delimiters outside quotes, and
-- leaves out the empty ones.
pub values_next-Yields :
    (delimiter : ℕ) (s : Bytes) → Yields (values_next delimiter) s (split_values delimiter s)
unfolding values_next quoted_values_next get_next
values_next-Yields delimiter s =
    find_next-Yields (get_next (delimiter ∷ []) value_quotes) trimmed_value
      (full_get_next-Yields (delimiter ∷ []) value_quotes s)

-- A headers iterator goes through the lines that are headers, and leaves out the others.
pub headers_next-Yields : (s : Bytes) → Yields headers_next s (split_headers s)
unfolding headers_next get_next
headers_next-Yields s =
    find_next-Yields (get_next line_breaks []) header_line (quick_get_next-Yields line_breaks s)
