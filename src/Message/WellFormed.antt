-- ===== src/Message/WellFormed.antt =====
-- c_src/parser.cc: the invariant of the map of the headers in the loop of `Parse`.
use elixir_sippet.Base.Yields.{fold_results, while_next-Yields}
use elixir_sippet.Base.{
  List, [], ◌∷◌, ◌++◌, Option, none, some, Bytes, All, All-append, Result, ok, ◌>>=◌, rounds,
  Ensures, returns, fails, Ensures-chain, inl, inr, ◌≡◌, refl, sym, ◌∙◌, subst, arith, Bool-cases,
  some_inj, append-nil,
}
use elixir_sippet.Format.Forms.{
  IsForm, text_form, params_form, type_form, contact_form, warning_form, via_form,
}
use elixir_sippet.HeaderList.{ValueFormat}
use elixir_sippet.Iterators.Headers.{HeaderLine, headers_next}
use elixir_sippet.Iterators.Split.{split_headers, headers_next-Yields}
use elixir_sippet.Message.Header.Conforms.{EntryOk, Conforms, parse_header-EntryOk}
use elixir_sippet.Message.Header.{parse_header}
use elixir_sippet.Message.HeaderMap.{same_name_iff, get_header-put_header, add_values-append}
use elixir_sippet.Message.{
  Headers, get_header, put_header, cells, add_values, add_header, parse_headers,
}
use elixir_sippet.Value.{Name, atom, string, same_name, Item, Value, one, many, Runtime}

-- No name stands twice in the map.
abbrev pub Distinct : Headers → Type 0
Distinct [] = Unit
Distinct ((n, v) ∷ m) = (get_header n m ≡ none) × Distinct m

abbrev pub IsWellFormed : Headers → Type 0
IsWellFormed m = Distinct m × All EntryOk m

put_header-Distinct :
    (k : Name) (v : Value) (m : Headers) → Distinct m → Distinct (put_header k v m)
unfolding put_header
put_header-Distinct k v [] h = (unfold get_header in refl, tt)
put_header-Distinct k v ((n, w) ∷ m) (fresh, h) = ground (
  arith,
  same_name_iff n k,
  same_name_iff k n,
  put_header-Distinct k v m h,
  get_header-put_header n k v m,
)

put_header-All :
    (k : Name) (v : Value) (m : Headers)
    → EntryOk (k, v)
    → All EntryOk m
    → All EntryOk (put_header k v m)
unfolding put_header
put_header-All k v [] e h = (e, tt)
put_header-All k v ((n, w) ∷ m) e (h, hs) = elim (Bool-cases (same_name n k)) [
  | inl same ↦ rw same (e, hs)
  | inr other ↦ rw other (h, put_header-All k v m e hs)
]

get_header-EntryOk :
    (k : Name) (v : Value) (m : Headers) → All EntryOk m → get_header k m ≡ some v → EntryOk (k, v)
get_header-EntryOk k v [] h e = absurd (unfold get_header in cc)
get_header-EntryOk k v ((n, w) ∷ m) (h, hs) e = elim (Bool-cases (same_name n k)) [
  | inl same ↦
      let value : w ≡ v = unfold get_header in ground arith in
      subst EntryOk (λ i. ((same_name_iff n k).0 same i, value i)) h
  | inr other ↦ get_header-EntryOk k v m hs (unfold get_header in rw other at e)
]

-- More terms of a list format are of that format.
Conforms-append :
    (f : ValueFormat) (old items : List Item)
    → Conforms f (many old)
    → Conforms f (many items)
    → Conforms f (many (old ++ items))
Conforms-append ValueFormat.single_token old items h g = absurd h
Conforms-append ValueFormat.single_token_params old items h g = absurd h
Conforms-append ValueFormat.single_type_subtype_params old items h g = absurd h
Conforms-append ValueFormat.single_integer old items h g = absurd h
Conforms-append ValueFormat.single_contact_params old items h g = absurd h
Conforms-append ValueFormat.only_auth_params old items h g = absurd h
Conforms-append ValueFormat.scheme_and_auth_params old items h g =
    All-append (IsForm params_form) old items h g
Conforms-append ValueFormat.trimmed_utf8 old items h g = absurd h
Conforms-append ValueFormat.cseq old items h g = absurd h
Conforms-append ValueFormat.date old items h g = absurd h
Conforms-append ValueFormat.timestamp old items h g = absurd h
Conforms-append ValueFormat.mime_version old items h g = absurd h
Conforms-append ValueFormat.retry_after old items h g = absurd h
Conforms-append ValueFormat.multiple_tokens old items h g =
    All-append (IsForm text_form) old items h g
Conforms-append ValueFormat.multiple_token_params old items h g =
    All-append (IsForm params_form) old items h g
Conforms-append ValueFormat.multiple_type_subtype_params old items h g =
    All-append (IsForm type_form) old items h g
Conforms-append ValueFormat.multiple_uri_params old items h g =
    All-append (IsForm params_form) old items h g
Conforms-append ValueFormat.multiple_contact_params old items h g =
    All-append (IsForm contact_form) old items h g
Conforms-append ValueFormat.star_or_multiple_contact_params old items h g =
    All-append (IsForm contact_form) old items h g
Conforms-append ValueFormat.multiple_warnings old items h g =
    All-append (IsForm warning_form) old items h g
Conforms-append ValueFormat.multiple_vias old items h g = All-append (IsForm via_form) old items h g

append-EntryOk :
    (k : Name) (old : List Item) (new : Value)
    → EntryOk (k, many old)
    → EntryOk (k, new)
    → EntryOk (k, many (old ++ cells new))
append-EntryOk (atom a) old (one item) h g = rw append-nil h
append-EntryOk (string s) old (one item) h g = absurd g
append-EntryOk (string s) old (many items) h g = All-append (IsForm text_form) old items h g
append-EntryOk (atom a) old (many items) (f, e, h) (f', e', g) =
    let same : f' ≡ f = some_inj (sym e' ∙ e) in
    (f, e, Conforms-append f old items h (subst (λ x. Conforms x (many items)) same g))

add_values-EntryOk :
    (k : Name) (old new : Value)
    → EntryOk (k, old)
    → EntryOk (k, new)
    → Ensures (λ v. EntryOk (k, v)) (add_values old new)
add_values-EntryOk k (one item) new h g = unfold add_values in fails
add_values-EntryOk k (many items) new h g =
    rw (add_values-append items new) (returns (append-EntryOk k items new h g))

put_header-IsWellFormed :
    (k : Name) (v : Value) (m : Headers)
    → EntryOk (k, v)
    → IsWellFormed m
    → IsWellFormed (put_header k v m)
put_header-IsWellFormed k v m e (d, h) = (put_header-Distinct k v m d, put_header-All k v m e h)

-- A step of the loop of `Parse` fails or keeps the map well-formed, if the header that it adds is
-- of its listed form.
pub add_header-IsWellFormed :
    (h : Name × Value) (m : Headers)
    → EntryOk h
    → IsWellFormed m
    → Ensures IsWellFormed (add_header h m)
unfolding add_header
add_header-IsWellFormed (k, v) m e w = add (get_header k m) refl
  where
    add :
        (r : Option Value)
        → get_header k m ≡ r
        → Ensures IsWellFormed (elim r [
          | none ↦ ok (put_header k v m)
          | some old ↦ add_values old v >>= λ added. ok (put_header k added m)
        ])
    add none h = returns (put_header-IsWellFormed k v m e w)
    add (some old) h =
        Ensures-chain (λ added. ok (put_header k added m))
          (add_values-EntryOk k old v (get_header-EntryOk k old m w.1 h) e)
          λ added g. returns (put_header-IsWellFormed k added m g w)

abbrev body : Runtime → HeaderLine → Headers → Result Headers
body vm h headers = parse_header vm h.name h.values >>= λ header. add_header header headers

fold-IsWellFormed :
    (vm : Runtime) (hs : List HeaderLine) (m : Headers)
    → IsWellFormed m
    → Ensures IsWellFormed (fold_results (body vm) hs m)
fold-IsWellFormed vm [] m w = returns w
fold-IsWellFormed vm (h ∷ hs) m w =
    Ensures-chain (λ m'. fold_results (body vm) hs m')
      (Ensures-chain (λ header. add_header header m) (parse_header-EntryOk vm h.name h.values)
        λ header e. add_header-IsWellFormed header m e w)
      λ m' w'. fold-IsWellFormed vm hs m' w'

-- The loop of `Parse` goes through the lines that are headers, in order, up to the first that
-- fails.
pub parse_headers-fold :
    (vm : Runtime) (s : Bytes)
    → parse_headers vm s
      ≡ fold_results
          (λ h headers. parse_header vm h.name h.values >>= λ header. add_header header headers)
          (split_headers s)
          []
unfolding parse_headers
parse_headers-fold vm s =
    while_next-Yields headers_next (body vm) (rounds s) [] (omega arith) (headers_next-Yields s)

-- The loop of `Parse` over the headers fails, or returns a map in which no name stands twice and
-- each entry is of the form that the table of the headers lists for it.
pub parse_headers-IsWellFormed :
    (vm : Runtime) (s : Bytes) → Ensures IsWellFormed (parse_headers vm s)
parse_headers-IsWellFormed vm s =
    rw (parse_headers-fold vm s) (fold-IsWellFormed vm (split_headers s) [] (tt, tt))
