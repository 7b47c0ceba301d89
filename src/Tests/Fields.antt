-- ===== src/Tests/Fields.antt =====
-- c_src/parser.cc: the theorems on fields of a header at concrete texts.
use elixir_sippet.Base.{codes, ok, ◌≡◌, refl, arith}
use elixir_sippet.Field.Comment.{Balanced, nothing, plain, nested}
use elixir_sippet.Field.Contact.{parse_contact}
use elixir_sippet.Unquote.{unquote}

-- An apostrophe ends a name in double quotes.
run_contact :
    parse_contact (codes "\"O'B\" <sip:a>")
    ≡ ok (record { display_name = codes "\"O'"; address = codes "sip:a"; rest = codes ">" })
unfolding parse_contact elixir_sippet.Ascii.is_quote elixir_sippet.Tokenizer.skip_lws
    elixir_sippet.Field.Contact.quoted_contact elixir_sippet.Field.scan_quoted
    elixir_sippet.Tokenizer.skip_one elixir_sippet.Tokenizer.skip_to unquote
run_contact = refl

balanced : Balanced (codes "a(b) c ")
balanced = plain (omega arith) (omega arith) (
    nested (plain (omega arith) (omega arith) nothing) (
      plain (omega arith) (omega arith)
        (plain (omega arith) (omega arith) (plain (omega arith) (omega arith) nothing))))
