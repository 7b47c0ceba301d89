-- ===== src/Nif/Load.antt =====
-- c_src/parser.cc: what `on_load` puts into its tables.
use mathlib.Core.List.{Memᴰ}
use elixir_sippet.Message.Header.{header_parser}
use elixir_sippet.Message.Names.{header_parser-spelling}
use elixir_sippet.StartLine.{atom_name}
use elixir_sippet.Value.{Runtime}
use elixir_sippet.Base.{
  ℕ, Bool, true, false, not, ◌||◌, ◌&&◌, List, [], ◌∷◌, ◌++◌, map, Option, none, some, or_else,
  or_else-none, or_else_assoc, or_else-if, Bytes, equal, equal_refl, equal→eq, ◌≡◌, refl, sym, ap,
  ◌∙◌, arith, Bool-cases, inl, inr, ◌==◌, if◌then◌else◌,
}
use elixir_sippet.Ascii.{lower_case}
use elixir_sippet.HeaderList.{
  ValueFormat, HeaderRow, header_list, method_list, protocol_list, find_parser, find_alias,
  loaded_atoms,
}
use elixir_sippet.Message.Errors.{is_among}
use elixir_sippet.Nif.{
  Tables, get_parser, get_alias, insert_parser, insert_alias, make_atom, load_atoms, load_row,
  load_rows, on_load,
}

keep_first {ℓ} :
    {A : Type ℓ} (b : Bool) (a x : A) (o : Option A)
    → (if b then some a else o) ≡ or_else (if b then some a else o) (if b then some x else none)
keep_first true a x o = refl
keep_first false a x o = sym (or_else-none o)

pass_on {ℓ} :
    {A : Type ℓ} (b : Bool) (a : A) (o p : Option A)
    → (if b then some a else or_else o p) ≡ or_else (if b then some a else o) p
pass_on true a o p = refl
pass_on false a o p = refl

get_parser-insert_parser :
    (j k : Bytes) (f : ValueFormat) (m : List (Bytes × ValueFormat))
    → get_parser j (insert_parser k f m)
      ≡ or_else (get_parser j m) (if equal k j then some f else none)
unfolding get_parser insert_parser
get_parser-insert_parser j k f [] = refl
get_parser-insert_parser j k f ((n, g) ∷ m) = elim (Bool-cases (equal n k)) [
  | inl same ↦ rw (same, equal→eq n k same) (keep_first (equal k j) g f (get_parser j m))
  | inr other ↦
      rw (other, get_parser-insert_parser j k f m) (pass_on (equal n j) g (get_parser j m) _)
]

get_alias-insert_alias :
    (j k : ℕ) (a : Bytes) (m : List (ℕ × Bytes))
    → get_alias j (insert_alias k a m) ≡ or_else (get_alias j m) (if k == j then some a else none)
unfolding get_alias insert_alias
get_alias-insert_alias j k a [] = refl
get_alias-insert_alias j k a ((n, b) ∷ m) = elim (Bool-cases (n == k)) [
  | inl same ↦
      let n≡k : n ≡ k = ground arith in rw (same, n≡k) (keep_first (k == j) b a (get_alias j m))
  | inr other ↦ rw (other, get_alias-insert_alias j k a m) (pass_on (n == j) b (get_alias j m) _)
]

-- The maps after more rows.
get_parser-load_rows :
    (name : Bytes) (rows : List HeaderRow) (t : Tables)
    → get_parser name (load_rows rows t).parsers
      ≡ or_else (get_parser name t.parsers) (find_parser name rows)
unfolding load_rows load_row find_parser
get_parser-load_rows name [] t = sym (or_else-none (get_parser name t.parsers))
get_parser-load_rows name (row ∷ rows) t =
    get_parser-load_rows name rows (load_row row t)
    ∙ ap (λ o. or_else o (find_parser name rows))
        (get_parser-insert_parser name row.atom_name row.format t.parsers)
    ∙ or_else_assoc (get_parser name t.parsers) _ (find_parser name rows)
    ∙ ap (or_else (get_parser name t.parsers))
        (or_else-if (equal row.atom_name name) row.format (find_parser name rows))

get_alias-load_row :
    (c : ℕ) (row : HeaderRow) (t : Tables)
    → get_alias c (load_row row t).aliases
      ≡ or_else (get_alias c t.aliases) (
          if not (row.compact_name == 0) && row.compact_name == c then some row.atom_name else none)
unfolding load_row
get_alias-load_row c row t = elim (Bool-cases (row.compact_name == 0)) [
  | inl zero_name ↦ rw zero_name (sym (or_else-none (get_alias c t.aliases)))
  | inr name ↦ rw name (get_alias-insert_alias c row.compact_name row.atom_name t.aliases)
]

get_alias-load_rows :
    (c : ℕ) (rows : List HeaderRow) (t : Tables)
    → get_alias c (load_rows rows t).aliases ≡ or_else (get_alias c t.aliases) (find_alias c rows)
unfolding load_rows find_alias
get_alias-load_rows c [] t = sym (or_else-none (get_alias c t.aliases))
get_alias-load_rows c (row ∷ rows) t =
    get_alias-load_rows c rows (load_row row t)
    ∙ ap (λ o. or_else o (find_alias c rows)) (get_alias-load_row c row t)
    ∙ or_else_assoc (get_alias c t.aliases) _ (find_alias c rows)
    ∙ ap (or_else (get_alias c t.aliases)) (
        or_else-if (not (row.compact_name == 0) && row.compact_name == c) row.atom_name
          (find_alias c rows))

is_among-append :
    (a : Bytes) (xs ys : List Bytes) → is_among a (xs ++ ys) ≡ (is_among a xs || is_among a ys)
is_among-append a [] ys = refl
is_among-append a (x ∷ xs) ys = ground (arith, is_among-append a xs ys)

load_atoms-made :
    (names : List Bytes) (t : Tables)
    → ((a : Bytes)
        → is_among a (load_atoms names t).atoms
          ≡ (is_among a (map lower_case names) || is_among a t.atoms))
      × ((load_atoms names t).parsers ≡ t.parsers)
      × ((load_atoms names t).aliases ≡ t.aliases)
unfolding load_atoms make_atom
load_atoms-made [] t = (λ a. refl, refl, refl)
load_atoms-made (name ∷ names) t =
    let (made, parsers, aliases) = load_atoms-made names (make_atom (lower_case name) t) in
    (λ a. ground (arith, made a), parsers, aliases)

load_rows-made :
    (a : Bytes) (rows : List HeaderRow) (t : Tables)
    → is_among a (load_rows rows t).atoms
      ≡ (is_among a (map (λ (row : HeaderRow). row.atom_name) rows) || is_among a t.atoms)
unfolding load_rows load_row make_atom
load_rows-made a [] t = refl
load_rows-made a (row ∷ rows) t = ground (arith, load_rows-made a rows (load_row row t))

reorder : (p h m t : Bool) → (p || (h || (m || t))) ≡ ((m || (h || p)) || t)
reorder p h m t = ground arith

-- The atoms of `on_load`, for any three lists.
made_in_order :
    (a : Bytes) (methods : List Bytes) (rows : List HeaderRow) (protocols : List Bytes) (t : Tables)
    → is_among a (load_atoms protocols (load_rows rows (load_atoms methods t))).atoms ≡ (
        is_among a (
          map lower_case methods
          ++ (map (λ (row : HeaderRow). row.atom_name) rows ++ map lower_case protocols))
        || is_among a t.atoms)
made_in_order a methods rows protocols t =
    let names = map (λ (row : HeaderRow). row.atom_name) rows in
    let lower = map lower_case protocols in
    (load_atoms-made protocols (load_rows rows (load_atoms methods t))).0 a
    ∙ rw
        (
          load_rows-made a rows (load_atoms methods t),
          (load_atoms-made methods t).0 a,
          is_among-append a (map lower_case methods) (names ++ lower),
          is_among-append a names lower,
        )
        (reorder (is_among a lower) (is_among a names) (is_among a (map lower_case methods))
          (is_among a t.atoms))

on_load-made :
    (a : Bytes) (t : Tables)
    → is_among a (on_load t).atoms ≡ (is_among a loaded_atoms || is_among a t.atoms)
on_load-made a t =
    unfold on_load loaded_atoms in made_in_order a method_list header_list protocol_list t

-- When `on_load` begins with empty maps, `g_parsers` and `g_aliases` answer behind it like the
-- first row of c_src/header_list.h with the atom or with the compact name, and the atoms that it
-- made exist beside those of before.
pub on_load-tables :
    (t : Tables)
    → t.parsers ≡ []
    → t.aliases ≡ []
    → ((name : Bytes) → get_parser name (on_load t).parsers ≡ find_parser name header_list)
      × ((c : ℕ) → get_alias c (on_load t).aliases ≡ find_alias c header_list)
      × ((a : Bytes)
          → is_among a (on_load t).atoms ≡ (is_among a loaded_atoms || is_among a t.atoms))
unfolding on_load
on_load-tables t h k =
    let rows = load_rows header_list (load_atoms method_list t) in
    let (_, same_parsers, same_aliases) = load_atoms-made protocol_list rows in
    let (_, parsers, aliases) = load_atoms-made method_list t in
    (
      λ name.
          ap (get_parser name) same_parsers
          ∙ get_parser-load_rows name header_list (load_atoms method_list t)
          ∙ rw (parsers, h) (unfold get_parser in refl),
      λ c.
          ap (get_alias c) same_aliases
          ∙ get_alias-load_rows c header_list (load_atoms method_list t)
          ∙ rw (aliases, k) (unfold get_alias in refl),
      λ a. on_load-made a t,
    )

row_among :
    (row : HeaderRow) (rows : List HeaderRow)
    → Memᴰ row rows
    → is_among row.atom_name (map (λ (r : HeaderRow). r.atom_name) rows) ≡ true
row_among row [] m = elim m [ ]
row_among row (r ∷ rows) (Memᴰ.head e) = rw (← e) (ground (arith, equal_refl row.atom_name))
row_among row (r ∷ rows) (Memᴰ.tail m) = ground (arith, row_among row rows m)

loaded-row : (row : HeaderRow) → Memᴰ row header_list → is_among row.atom_name loaded_atoms ≡ true
loaded-row row m = unfold loaded_atoms in among method_list protocol_list
  where
    among :
        (methods protocols : List Bytes)
        → is_among row.atom_name (
            map lower_case methods
            ++ (map (λ (r : HeaderRow). r.atom_name) header_list ++ map lower_case protocols))
          ≡ true
    among methods protocols =
        let names = map (λ (r : HeaderRow). r.atom_name) header_list in
        let lower = map lower_case protocols in
        rw
          (
            is_among-append row.atom_name (map lower_case methods) (names ++ lower),
            is_among-append row.atom_name names lower,
            row_among row header_list m,
          )
          (ground arith)

-- In a machine that has the atoms of `on_load`, a header of the table is found by every spelling of
-- its name: letters of either case, and a dash or an underscore for each underscore.
pub header_parser-loaded :
    (vm : Runtime) (t : Tables) (row : HeaderRow) (name : Bytes)
    → ((a : Bytes) → is_among a (on_load t).atoms ≡ true → vm.atom_exists a ≡ true)
    → Memᴰ row header_list
    → atom_name name ≡ row.atom_name
    → header_parser vm name ≡ some (row.atom_name, row.format)
header_parser-loaded vm t row name known m e =
    header_parser-spelling vm row name m e
      (known row.atom_name (on_load-made row.atom_name t ∙ rw (loaded-row row m) refl))
