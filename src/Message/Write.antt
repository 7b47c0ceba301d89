-- ===== src/Message/Write.antt =====
-- c_src/parser.cc: the text of a message that is written from its lines, for `Parse` to read back.
pub mod Lines
pub mod Headers
pub mod ReadBack
use elixir_sippet.Base.{[], ◌∷◌, ◌++◌, List, map, Bytes}
use elixir_sippet.Iterators.Headers.{HeaderLine}

-- The lines, each with a line feed behind it.
abbrev pub lines_text : List Bytes → Bytes
lines_text [] = []
lines_text (l ∷ ls) = l ++ b'\n' ∷ lines_text ls

-- A header line: the name, a colon, a space and the values.
abbrev pub header_text : HeaderLine → Bytes
header_text h = h.name ++ b':' ∷ b' ' ∷ h.values

-- The first line, the header lines, and an empty line.
abbrev pub message_text : Bytes → List HeaderLine → Bytes
message_text line hs = lines_text (line ∷ map header_text hs) ++ b'\n' ∷ []
