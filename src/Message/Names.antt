-- ===== src/Message/Names.antt =====
-- c_src/parser.cc and c_src/header_list.h: which parser `ParseHeader` finds for a header name.
use mathlib.Core.List.{Memᴰ}
use elixir_sippet.Ascii.{to_lower_ascii}
use elixir_sippet.Base.{
  ℕ, ◌≤◌, Bool, true, false, not, ◌&&◌, ◌||◌, List, [], ◌∷◌, none, some, Bytes, equal, equal_refl,
  length, leb, ◌==◌, ◌≡◌, ◌≢◌, refl, sym, arith,
}
use elixir_sippet.HeaderList.{HeaderRow, header_list, find_parser, find_alias}
use elixir_sippet.Message.Header.{alias_of, header_name_term, header_parser}
use elixir_sippet.StartLine.{atom_name}
use elixir_sippet.Value.{Runtime}

abbrev any_row : (HeaderRow → Bool) → List HeaderRow → Bool
any_row p [] = false
any_row p (row ∷ rows) = p row || any_row p rows

-- Names of two characters or more, each once; compact names each once.
abbrev well_listed : List HeaderRow → Bool
well_listed [] = true
well_listed (row ∷ rows) =
    leb 2 (length row.atom_name)
    && not (any_row (λ r. equal row.atom_name r.atom_name) rows)
    && (row.compact_name == 0 || not (any_row (λ r. row.compact_name == r.compact_name) rows))
    && well_listed rows

header_list-well_listed : well_listed header_list ≡ true
unfolding header_list
header_list-well_listed = refl

any_row-Mem :
    (p : HeaderRow → Bool) (row : HeaderRow) (rows : List HeaderRow)
    → Memᴰ row rows
    → p row ≡ true
    → any_row p rows ≡ true
any_row-Mem p row [] m h = elim m [ ]
any_row-Mem p row (r ∷ rows) (Memᴰ.head e) h = rw (sym e, h) refl
any_row-Mem p row (r ∷ rows) (Memᴰ.tail m) h = ground (arith, any_row-Mem p row rows m h)

find_parser-Mem :
    (row : HeaderRow) (rows : List HeaderRow)
    → well_listed rows ≡ true
    → Memᴰ row rows
    → find_parser row.atom_name rows ≡ some row.format
unfolding find_parser
find_parser-Mem row [] w m = elim m [ ]
find_parser-Mem row (r ∷ rows) w (Memᴰ.head e) = rw (e, equal_refl r.atom_name) refl
find_parser-Mem row (r ∷ rows) w (Memᴰ.tail m) =
    ground
      (arith, find_parser-Mem row rows, any_row-Mem (λ q. equal r.atom_name q.atom_name) row rows m)

find_alias-Mem :
    (row : HeaderRow) (rows : List HeaderRow)
    → well_listed rows ≡ true
    → Memᴰ row rows
    → row.compact_name ≢ 0
    → find_alias row.compact_name rows ≡ some row.atom_name
unfolding find_alias
find_alias-Mem row [] w m ne = elim m [ ]
find_alias-Mem row (r ∷ rows) w (Memᴰ.head e) ne = rw (sym e) (ground arith)
find_alias-Mem row (r ∷ rows) w (Memᴰ.tail m) ne =
    ground (
      arith,
      find_alias-Mem row rows,
      any_row-Mem (λ q. r.compact_name == q.compact_name) row rows m,
    )

length-Mem :
    (row : HeaderRow) (rows : List HeaderRow)
    → well_listed rows ≡ true
    → Memᴰ row rows
    → 2 ≤ length row.atom_name
length-Mem row [] w m = elim m [ ]
length-Mem row (r ∷ rows) w (Memᴰ.head e) = rw e (ground arith)
length-Mem row (r ∷ rows) w (Memᴰ.tail m) = ground (arith, length-Mem row rows)

alias_of-long : (name : Bytes) → 2 ≤ length (atom_name name) → alias_of name ≡ none
unfolding alias_of atom_name
alias_of-long [] h = refl
alias_of-long (c ∷ []) h = absurd (omega (arith, h))
alias_of-long (c ∷ d ∷ s) h = refl

-- A header of the table whose atom exists is found by every spelling of its name: letters of either
-- case, and a dash or an underscore for each underscore.
pub header_parser-spelling :
    (vm : Runtime) (row : HeaderRow) (name : Bytes)
    → Memᴰ row header_list
    → atom_name name ≡ row.atom_name
    → vm.atom_exists row.atom_name ≡ true
    → header_parser vm name ≡ some (row.atom_name, row.format)
unfolding header_parser header_name_term
header_parser-spelling vm row name m e known =
    let long = alias_of-long name (rw e (length-Mem row header_list header_list-well_listed m)) in
    rw
      (
        header_parser,
        header_name_term,
        long,
        e,
        known,
        find_parser-Mem row header_list header_list-well_listed m,
      )
      refl

-- A header of the table with a compact name is found by that letter, in either case, and then gets
-- the atom and the parser of its row.
header_parser-compact :
    (vm : Runtime) (row : HeaderRow) (c : ℕ)
    → Memᴰ row header_list
    → row.compact_name ≢ 0
    → to_lower_ascii c ≡ row.compact_name
    → header_parser vm (c ∷ []) ≡ some (row.atom_name, row.format)
unfolding header_parser header_name_term alias_of
header_parser-compact vm row c m ne e =
    rw
      (
        header_parser,
        header_name_term,
        alias_of,
        e,
        find_alias-Mem row header_list header_list-well_listed m ne,
        find_parser-Mem row header_list header_list-well_listed m,
      )
      refl
