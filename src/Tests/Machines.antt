-- ===== src/Tests/Machines.antt =====
-- c_src/string_tokenizer.h and c_src/parser.cc: the theorems on the tokenizer's state and on the NIF at
-- concrete states.
use mathlib.Core.List.{Memᴰ}
use elixir_sippet.Base.{none, ℕ, true, false, ◌||◌, ◌&&◌, [], ◌∷◌, some, Bytes, codes, ◌≡◌, refl}
use elixir_sippet.HeaderList.{header_list, loaded_atoms, find_parser, find_alias}
use elixir_sippet.HeaderList
use elixir_sippet.Iterators.Classes.Generic.{GenericState, generic_init}
use elixir_sippet.Iterators.Classes.Loop.{all_pairs}
use elixir_sippet.Ascii.{is_quote, is_lws}
use elixir_sippet.Iterators.Classes.Pairs.{is_some, shown_pair}
use elixir_sippet.Iterators.Classes.Pairs.Written.{
  Written, quoted_pair, text_of, pair_of, IsName, pairs_get_next-text_of,
}
use elixir_sippet.Iterators.Classes.Values.{Delimited}
use elixir_sippet.Iterators.Classes.{values_init, PairsState, pairs_init, pairs_get_next}
use elixir_sippet.Iterators.Split.{split_values}
use elixir_sippet.Iterators.{quoted_values_next, value_quotes}
use elixir_sippet.Message.Errors.{is_among}
use elixir_sippet.Message.Header.{header_parser}
use elixir_sippet.Nif.Load.{on_load-tables, header_parser-loaded}
use elixir_sippet.Nif.{Tables, get_parser, get_alias, on_load}
use elixir_sippet.StringTokenizer.Machine.Calls.{Calls, ahead, get_next-Calls}
use elixir_sippet.StringTokenizer.Machine.{set_quote_chars, TokenizerState, init, set_options}
use elixir_sippet.StringTokenizer
use elixir_sippet.Tests.{vm}
use elixir_sippet.Value.{Runtime}

abbrev plain : TokenizerState
plain = init (codes "text/html; foo=bar") (codes "; =")

abbrev marked : TokenizerState
marked = set_options 1 plain

run_marked :
    ahead marked
    ≡ (false, codes "text/html")
      ∷ (true, codes ";")
      ∷ (true, codes " ")
      ∷ (false, codes "foo")
      ∷ (true, codes "=")
      ∷ (false, codes "bar")
      ∷ []
unfolding set_options init elixir_sippet.StringTokenizer.Machine.Pieces.pieces
    elixir_sippet.Tokenizer.finds
run_marked = refl

get_next-Calls_example : Calls marked (ahead marked)
get_next-Calls_example = get_next-Calls marked

abbrev no_tables : Tables
no_tables = record { atoms = []; parsers = []; aliases = [] }

on_load-tables_example :
    ((name : Bytes) → get_parser name (on_load no_tables).parsers ≡ find_parser name header_list)
    × ((c : ℕ) → get_alias c (on_load no_tables).aliases ≡ find_alias c header_list)
    × ((a : Bytes)
        → is_among a (on_load no_tables).atoms ≡ (is_among a loaded_atoms || is_among a []))
on_load-tables_example = on_load-tables no_tables refl refl

-- A machine with exactly the atoms of `on_load`.
abbrev loaded : Runtime
loaded = record vm { atom_exists = λ a. is_among a (on_load no_tables).atoms }

abbrev events_row : HeaderList.HeaderRow
events_row = record {
  compact_name = b'u';
  atom_name = codes "allow_events";
  format = HeaderList.multiple_tokens;
}

listed : Memᴰ events_row header_list
unfolding header_list
listed = Memᴰ.tail (Memᴰ.tail (Memᴰ.tail (Memᴰ.tail (Memᴰ.tail (Memᴰ.head refl)))))

header_parser-loaded_example :
    header_parser loaded (codes "Allow-Events")
    ≡ some (codes "allow_events", HeaderList.multiple_tokens)
unfolding elixir_sippet.StartLine.atom_name elixir_sippet.Ascii.to_lower_ascii
header_parser-loaded_example =
    header_parser-loaded loaded no_tables events_row (codes "Allow-Events") (λ a h. h) listed refl

-- A quoted value with the delimiter in it
abbrev quoted_pairs : PairsState
quoted_pairs = pairs_init (codes "a=\"1,2\", b") b',' false true

abbrev first_pair : Written
first_pair = quoted_pair (codes "a") (codes "1,2")

quoted_pairs-Delimited : Delimited b',' quoted_pairs.props
unfolding pairs_init values_init init set_quote_chars
quoted_pairs-Delimited = (refl, refl)

finds_first :
    quoted_values_next b',' quoted_pairs.props.values.quotes quoted_pairs.props.values.token_end
    ≡ some (text_of first_pair, codes ", b")
unfolding quoted_values_next pairs_init values_init init set_quote_chars
finds_first = refl

first-IsName : IsName (codes "a")
unfolding is_quote is_lws
first-IsName = (λ e. absurd cc, (refl, tt), (refl, tt), refl, refl)

pairs_get_next-text_of_example :
    (shown_pair (pairs_get_next quoted_pairs)
      ≡ elim (pair_of quoted_pairs.values_optional first_pair) [
        | none ↦ none
        | some p ↦ some (p, codes ", b")
      ])
    × ((pairs_get_next quoted_pairs).1.valid
        ≡ (quoted_pairs.valid && is_some (pair_of quoted_pairs.values_optional first_pair)))
pairs_get_next-text_of_example =
    pairs_get_next-text_of b',' quoted_pairs first_pair (codes ", b") quoted_pairs-Delimited
      finds_first first-IsName

run_invalid : all_pairs (split_values b',' (codes "a=1, b")) ≡ false
unfolding elixir_sippet.StringTokenizer.Fields.fields elixir_sippet.Tokenizer.finds
    elixir_sippet.Tokenizer.span elixir_sippet.Tokenizer.skip_one elixir_sippet.Trim.trim_lws
    elixir_sippet.Trim.trim_left elixir_sippet.Trim.trim_right elixir_sippet.Ascii.is_lws
    elixir_sippet.Ascii.is_quote elixir_sippet.Iterators.trimmed_value
    elixir_sippet.Iterators.Parameters.name_value_pair elixir_sippet.Iterators.Parameters.at_equals
    elixir_sippet.Iterators.Parameters.has_quote elixir_sippet.Iterators.Parameters.is_pair_quote
    elixir_sippet.Iterators.Parameters.pair_value
run_invalid = refl

abbrev generic : GenericState
generic = generic_init (codes "tag=1;lr")

generic-Delimited : Delimited b';' generic.props
unfolding generic_init values_init init set_quote_chars
generic-Delimited = (refl, refl)

generic_quotes : generic.props.values.quotes ≡ value_quotes
unfolding generic_init values_init init set_quote_chars
generic_quotes = refl
