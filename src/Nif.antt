-- ===== src/Nif.antt =====
-- c_src/parser.cc: the functions that the virtual machine calls, `parse_wrapper` and `on_load`, and the
-- tables `g_parsers` and `g_aliases`.
pub mod Load
pub mod Wrapper
use elixir_sippet.Base.{
  ℕ, not, List, [], ◌∷◌, Option, none, some, Bytes, equal, length, ◌==◌, if◌then◌else◌,
}
use elixir_sippet.Ascii.{lower_case}
use elixir_sippet.HeaderList.{ValueFormat, HeaderRow, header_list, method_list, protocol_list}
use elixir_sippet.Format.Single.{raised}
use elixir_sippet.Message.{Reply, ok_message, error_tuple, bare_atom, parse}
use elixir_sippet.Value.{Runtime}

-- What `enif_is_binary` tells apart.
pub data Argument : Type 0 where
  binary_term : Bytes → Argument
  other_term : Argument

pub data NifReply : Type 0 where
  badarg : NifReply
  replies : Reply → NifReply

-- What the machine makes of the reply of `Parse`: an exception that was made is raised.
unfoldable pub nif_reply : Reply → NifReply
nif_reply (ok_message message) = replies (ok_message message)
nif_reply (error_tuple reason) =
    if equal reason raised then badarg else replies (error_tuple reason)
nif_reply (bare_atom reason) = replies (bare_atom reason)

-- `parse_wrapper`, behind the test of `argc`; the machine gives as many arguments as it says.
unfoldable pub parse_argument : Runtime → List Argument → NifReply
unfolding nif_reply
parse_argument vm [] = badarg
parse_argument vm (binary_term s ∷ argv) = nif_reply (parse vm s)
parse_argument vm (other_term ∷ argv) = badarg

-- `parse_wrapper`
unfoldable pub parse_wrapper : Runtime → List Argument → NifReply
unfolding parse_argument
parse_wrapper vm argv = if not (length argv == 1) then badarg else parse_argument vm argv

-- The atoms that were made, and the two maps.
pub record Tables : Type 0 where
  pub atoms : List Bytes
  pub parsers : List (Bytes × ValueFormat)
  pub aliases : List (ℕ × Bytes)

unfoldable pub get_parser : Bytes → List (Bytes × ValueFormat) → Option ValueFormat
get_parser name [] = none
get_parser name ((n, f) ∷ m) = if equal n name then some f else get_parser name m

unfoldable pub get_alias : ℕ → List (ℕ × Bytes) → Option Bytes
get_alias c [] = none
get_alias c ((d, a) ∷ m) = if d == c then some a else get_alias c m

-- `g_parsers.insert`, which leaves a key that is there as it is.
unfoldable pub insert_parser :
    Bytes → ValueFormat → List (Bytes × ValueFormat) → List (Bytes × ValueFormat)
insert_parser name f [] = (name, f) ∷ []
insert_parser name f ((n, g) ∷ m) =
    if equal n name then (n, g) ∷ m else (n, g) ∷ insert_parser name f m

-- `g_aliases.insert`
unfoldable pub insert_alias : ℕ → Bytes → List (ℕ × Bytes) → List (ℕ × Bytes)
insert_alias c a [] = (c, a) ∷ []
insert_alias c a ((d, b) ∷ m) = if d == c then (d, b) ∷ m else (d, b) ∷ insert_alias c a m

-- `enif_make_atom`
unfoldable pub make_atom : Bytes → Tables → Tables
make_atom name t = record t { atoms = name ∷ t.atoms }

-- `LoadMethodAtoms`, and `LoadProtocolAtoms` with its list.
unfoldable pub load_atoms : List Bytes → Tables → Tables
unfolding make_atom lower_case
load_atoms [] t = t
load_atoms (name ∷ names) t = load_atoms names (make_atom (lower_case name) t)

-- `X` in `LoadHeaderNameAtoms`
unfoldable pub load_row : HeaderRow → Tables → Tables
unfolding make_atom insert_parser insert_alias
load_row row t =
    let made = make_atom row.atom_name t in
    record made {
      parsers = insert_parser row.atom_name row.format t.parsers;
      aliases =
          if not (row.compact_name == 0)
          then insert_alias row.compact_name row.atom_name t.aliases
          else t.aliases;
    }

-- `LoadHeaderNameAtoms`
unfoldable pub load_rows : List HeaderRow → Tables → Tables
unfolding load_row
load_rows [] t = t
load_rows (row ∷ rows) t = load_rows rows (load_row row t)

-- `on_load`
unfoldable pub on_load : Tables → Tables
unfolding load_atoms load_rows header_list
on_load t = load_atoms protocol_list (load_rows header_list (load_atoms method_list t))
