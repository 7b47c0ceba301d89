-- ===== src/Message/Merge.antt =====
-- c_src/parser.cc: the map of the headers that the loop of `Parse` makes, described by what stands
-- under each name.
use elixir_sippet.Base.Yields.{fold_results}
use elixir_sippet.Base.{
  List, [], ◌∷◌, ◌++◌, Option, none, some, Bytes, codes, Result, ok, err, ◌>>=◌, traverse, >>=-ok,
  ok_inj, ◌≡◌, ◌↔◌, refl, sym, ap, ◌∙◌, Bool-cases, Option-cases, inl, inr, if◌then◌else◌,
}
use elixir_sippet.Iterators.Headers.{HeaderLine}
use elixir_sippet.Iterators.Split.{split_headers}
use elixir_sippet.Message.Header.{parse_header}
use elixir_sippet.Message.HeaderMap.{same_name_iff, get_header-put_header, add_values-append}
use elixir_sippet.Message.WellFormed.{parse_headers-fold}
use elixir_sippet.Message.{
  Headers, get_header, put_header, cells, add_values, add_header, parse_headers,
}
use elixir_sippet.Value.{Name, same_name, Item, Value, one, many, Runtime}

-- The values of the headers of a name, in order.
abbrev pub values_of : Name → List (Name × Value) → List Value
values_of name [] = []
values_of name ((n, v) ∷ ps) =
    let rest = values_of name ps in if same_name n name then v ∷ rest else rest

-- A value, with the terms of further values behind its own.
abbrev merge_with : Value → List Value → Value
merge_with v [] = v
merge_with (one item) (w ∷ ws) = merge_with (one item) ws
merge_with (many items) (w ∷ ws) = merge_with (many (items ++ cells w)) ws

-- What stands under a name: nothing if there is no value, else the first one with the others' terms.
abbrev pub merge : List Value → Option Value
merge [] = none
merge (v ∷ vs) = some (merge_with v vs)

abbrev merge_onto : Option Value → List Value → Option Value
merge_onto none vs = merge vs
merge_onto (some v) vs = some (merge_with v vs)

module _ (k : Name) (v : Value) (m : Headers) where
  add_header-none : get_header k m ≡ none → add_header (k, v) m ≡ ok (put_header k v m)
  unfolding add_header
  add_header-none h = rw (add_header, h) refl

  add_header-one :
      (item : Item)
      → get_header k m ≡ some (one item)
      → add_header (k, v) m ≡ err (codes "multiple_definition")
  unfolding add_header
  add_header-one item h = rw (add_header, h) (unfold add_values in refl)

  add_header-many :
      (items : List Item)
      → get_header k m ≡ some (many items)
      → add_header (k, v) m ≡ ok (put_header k (many (items ++ cells v)) m)
  unfolding add_header
  add_header-many items h = rw (add_header, h, add_values-append items v) refl

-- What a header that is added makes of the map.
pub data Adds (k : Name) (v : Value) (m : Headers) : Result Headers → Type 0 where
  fresh : get_header k m ≡ none → Adds k v m (ok (put_header k v m))
  longer :
      {items : List Item}
      → get_header k m ≡ some (many items)
      → Adds k v m (ok (put_header k (many (items ++ cells v)) m))
  refused :
      {item : Item}
      → get_header k m ≡ some (one item)
      → Adds k v m (err (codes "multiple_definition"))

pub add_header-Adds : (k : Name) (v : Value) (m : Headers) → Adds k v m (add_header (k, v) m)
add_header-Adds k v m = elim (Option-cases (get_header k m)) [
  | inl e ↦ rw (add_header-none k v m e) (fresh e)
  | inr (one item, e) ↦ rw (add_header-one k v m item e) (refused e)
  | inr (many items, e) ↦ rw (add_header-many k v m items e) (longer e)
]

-- A header is refused exactly when its name stands in the map already with a value that is no list,
-- and then as a multiple definition.
add_header-err :
    (k : Name) (v : Value) (m : Headers) (reason : Bytes)
    → (add_header (k, v) m ≡ err reason) ↔ (
        (item : Item) × (get_header k m ≡ some (one item)) × (reason ≡ codes "multiple_definition"))
add_header-err k v m reason = (
  λ h. refusal (add_header-Adds k v m) h,
  λ (item, e, same). rw same (add_header-one k v m item e),
)
  where
    refusal :
        {r : Result Headers}
        → Adds k v m r
        → r ≡ err reason
        → (item : Item) × (get_header k m ≡ some (one item))
          × (reason ≡ codes "multiple_definition")
    refusal (fresh e) h = absurd cc
    refusal (longer e) h = absurd cc
    refusal (refused {item} e) h = (item, e, cc)

merge_onto-nil : (o : Option Value) → o ≡ merge_onto o []
merge_onto-nil none = refl
merge_onto-nil (some u) = refl

put_header-get :
    (j k : Name) (v w : Value) (m : Headers)
    → some w ≡ merge_onto (get_header k m) (v ∷ [])
    → get_header j (put_header k w m) ≡ merge_onto (get_header j m) (values_of j ((k, v) ∷ []))
put_header-get j k v w m h = get_header-put_header j k w m ∙ elim (Bool-cases (same_name k j)) [
  | inl same ↦
      rw (same, values_of)
        (h ∙ ap (λ n. merge_onto (get_header n m) (v ∷ [])) ((same_name_iff k j).0 same))
  | inr other ↦ rw (other, values_of) (merge_onto-nil (get_header j m))
]

add_header-get :
    (j k : Name) (v : Value) (m m' : Headers) {r : Result Headers}
    → Adds k v m r
    → r ≡ ok m'
    → get_header j m' ≡ merge_onto (get_header j m) (values_of j ((k, v) ∷ []))
add_header-get j k v m m' (fresh e) h = rw (← ok_inj h) (put_header-get j k v v m (rw e refl))
add_header-get j k v m m' (longer {items} e) h =
    rw (← ok_inj h) (put_header-get j k v (many (items ++ cells v)) m (rw e refl))
add_header-get j k v m m' (refused e) h = absurd cc

merge_with-append :
    (v : Value) (vs ws : List Value) → merge_with (merge_with v vs) ws ≡ merge_with v (vs ++ ws)
merge_with-append v [] ws = refl
merge_with-append (one item) (u ∷ vs) ws = merge_with-append (one item) vs ws
merge_with-append (many items) (u ∷ vs) ws = merge_with-append (many (items ++ cells u)) vs ws

merge_onto-append :
    (o : Option Value) (vs ws : List Value)
    → merge_onto (merge_onto o vs) ws ≡ merge_onto o (vs ++ ws)
merge_onto-append none [] ws = refl
merge_onto-append none (v ∷ vs) ws = ap some (merge_with-append v vs ws)
merge_onto-append (some v) vs ws = ap some (merge_with-append v vs ws)

values_of-cons :
    (j : Name) (p : Name × Value) (ps : List (Name × Value))
    → values_of j (p ∷ []) ++ values_of j ps ≡ values_of j (p ∷ ps)
values_of-cons j (k, v) ps = elim (Bool-cases (same_name k j)) [
  | inl same ↦ rw (same, values_of) refl
  | inr other ↦ rw (other, values_of) refl
]

-- Headers that are added in turn.
pub add_all-get :
    (ps : List (Name × Value)) (m m' : Headers)
    → fold_results add_header ps m ≡ ok m'
    → (j : Name) → get_header j m' ≡ merge_onto (get_header j m) (values_of j ps)
add_all-get [] m m' h j = rw (← ok_inj h) (merge_onto-nil (get_header j m))
add_all-get ((k, v) ∷ ps) m m' h j =
    let (m1, first, rest) = >>=-ok (add_header (k, v) m) (fold_results add_header ps) m' h in
    add_all-get ps m1 m' rest j
    ∙ ap (λ o. merge_onto o (values_of j ps))
        (add_header-get j k v m m1 (add_header-Adds k v m) first)
    ∙ merge_onto-append (get_header j m) (values_of j ((k, v) ∷ [])) (values_of j ps)
    ∙ ap (merge_onto (get_header j m)) (values_of-cons j (k, v) ps)

-- A loop that succeeds parses every header, and adds what it parsed.
fold-traverse :
    (vm : Runtime) (hs : List HeaderLine) (m m' : Headers)
    → fold_results
        (λ h headers. parse_header vm h.name h.values >>= λ header. add_header header headers)
        hs
        m
      ≡ ok m'
    → (ps : List (Name × Value)) × (traverse
          (λ (h : HeaderLine). parse_header vm h.name h.values)
          hs
        ≡ ok ps)
      × (fold_results add_header ps m ≡ ok m')
fold-traverse vm [] m m' h = ([], refl, h)
fold-traverse vm (x ∷ hs) m m' h =
    let (m1, step, rest) =
      >>=-ok (parse_header vm x.name x.values >>= λ header. add_header header m) _ m' h in
    let (p, parsed, added) =
      >>=-ok (parse_header vm x.name x.values) (λ header. add_header header m) m1 step in
    let (ps, all, later) = fold-traverse vm hs m1 m' rest in
    (p ∷ ps, rw (parsed, all) refl, rw added later)

-- If the loop of `Parse` over the headers succeeds, every header was parsed, and under each name
-- stands what merging the values of its headers gives, in the order of the text: the first value,
-- and behind a list the terms of the later lists.
pub parse_headers-merge :
    (vm : Runtime) (s : Bytes) (m : Headers)
    → parse_headers vm s ≡ ok m
    → (ps : List (Name × Value)) × (traverse
          (λ (h : HeaderLine). parse_header vm h.name h.values)
          (split_headers s)
        ≡ ok ps)
      × ((name : Name) → get_header name m ≡ merge (values_of name ps))
parse_headers-merge vm s m h =
    let (ps, all, added) =
      fold-traverse vm (split_headers s) [] m (sym (parse_headers-fold vm s) ∙ h) in
    (ps, all, λ name. add_all-get ps [] m added name ∙ (unfold get_header in refl))
