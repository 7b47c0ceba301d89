-- ===== src/Format/Collect.antt =====
-- c_src/parser.cc: the loops of the `ParseMultiple…` functions.
use elixir_sippet.Base.Yields.{fold_results, while_next-Yields}
use elixir_sippet.Base.{
  traverse, List, [], ◌∷◌, Bytes, Result, ok, err, ◌>>=◌, reverse, reverse_onto, rounds, ◌≡◌, refl,
  ◌∙◌, ap, arith,
}
use elixir_sippet.Format.{collect_items}
use elixir_sippet.Iterators.Split.{split_values, values_next-Yields}
use elixir_sippet.Iterators.{values_next}
use elixir_sippet.Value.{Item}

abbrev push_item : (Bytes → Result Item) → Bytes → List Item → Result (List Item)
push_item parse value items = parse value >>= λ item. ok (item ∷ items)

fold-traverse :
    (parse : Bytes → Result Item) (vs : List Bytes) (acc : List Item)
    → (fold_results (push_item parse) vs acc >>= λ items. ok (reverse items))
      ≡ (traverse parse vs >>= λ items. ok (reverse_onto acc items))
fold-traverse parse [] acc = refl
fold-traverse parse (v ∷ vs) acc = step (parse v) (λ item. fold-traverse parse vs (item ∷ acc))
  where
    step :
        (r : Result Item)
        → ((item : Item)
            → (fold_results (push_item parse) vs (item ∷ acc) >>= λ items. ok (reverse items))
              ≡ (traverse parse vs >>= λ items. ok (reverse_onto (item ∷ acc) items)))
        → (((r >>= λ item. ok (item ∷ acc)) >>= λ items. fold_results (push_item parse) vs items)
            >>= λ items. ok (reverse items))
          ≡ ((r >>= λ item. traverse parse vs >>= λ items. ok (item ∷ items)) >>= λ items.
              ok (reverse_onto acc items))
    step (ok item) ih = ih item ∙ regroup (traverse parse vs)
      where
        regroup :
            (r : Result (List Item))
            → (r >>= λ items. ok (reverse_onto (item ∷ acc) items))
              ≡ ((r >>= λ items. ok (item ∷ items)) >>= λ items. ok (reverse_onto acc items))
        regroup (ok items) = refl
        regroup (err e) = refl
    step (err e) ih = refl

traverse-same : (r : Result (List Item)) → (r >>= λ items. ok (reverse_onto [] items)) ≡ r
traverse-same (ok items) = refl
traverse-same (err e) = refl

-- A header with several values is each of its values parsed, in the order of the text; the first
-- value that cannot be parsed gives the error.
pub collect_items-traverse :
    (parse : Bytes → Result Item) (values : Bytes)
    → collect_items parse values ≡ traverse parse (split_values b',' values)
unfolding collect_items
collect_items-traverse parse values =
    ap (λ r. r >>= λ items. ok (reverse items))
      (while_next-Yields (values_next b',') (push_item parse) (rounds values) [] (omega arith)
        (values_next-Yields b',' values))
    ∙ fold-traverse parse (split_values b',' values) []
    ∙ traverse-same (traverse parse (split_values b',' values))
