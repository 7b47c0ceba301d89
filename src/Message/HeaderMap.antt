-- ===== src/Message/HeaderMap.antt =====
-- c_src/parser.cc: the laws of the map of the headers, and what the loop of `Parse` does to it.
use elixir_sippet.Base.{
  true, List, [], ◌∷◌, ◌++◌, some, equal_refl, equal→eq, ok, reverse, reverse_onto, ◌≡◌, ◌↔◌, refl,
  ap, ◌∙◌, arith, if◌then◌else◌, append-nil,
}
use elixir_sippet.Message.{Headers, get_header, put_header, cells, add_values}
use elixir_sippet.Value.{Name, atom, string, same_name, Item, Value, many}

pub same_name_iff : (a b : Name) → (same_name a b ≡ true) ↔ (a ≡ b)
unfolding same_name
same_name_iff (atom a) (atom b) =
    (λ h. ap atom (equal→eq a b h), λ h. let e : a ≡ b = cc in rw e (equal_refl b))
same_name_iff (string a) (string b) =
    (λ h. ap string (equal→eq a b h), λ h. let e : a ≡ b = cc in rw e (equal_refl b))
same_name_iff (atom a) (string b) = (λ h. cc, λ h. cc)
same_name_iff (string a) (atom b) = (λ h. cc, λ h. cc)

-- After a header was put into the map, its name gives the value that was put, and every other name
-- what it gave before.
pub get_header-put_header :
    (j k : Name) (v : Value) (m : Headers)
    → get_header j (put_header k v m) ≡ (if same_name k j then some v else get_header j m)
unfolding get_header put_header
get_header-put_header j k v [] = refl
get_header-put_header j k v ((n, w) ∷ m) =
    ground (
      arith,
      get_header-put_header j k v m,
      same_name_iff n k,
      same_name_iff n j,
      same_name_iff k j,
    )

reverse_onto-reverse :
    (xs ys acc : List Item) → reverse_onto (reverse_onto xs ys) acc ≡ reverse_onto ys (xs ++ acc)
reverse_onto-reverse [] ys acc = refl
reverse_onto-reverse (x ∷ xs) ys acc = reverse_onto-reverse xs (x ∷ ys) acc

-- Where a header occurs again, its new values stand behind the old ones, in order.
pub add_values-append :
    (old : List Item) (new : Value) → add_values (many old) new ≡ ok (many (old ++ cells new))
unfolding add_values
add_values-append old new =
    ap (λ items. ok (many items))
      (reverse_onto-reverse (cells new) (reverse old) []
        ∙ reverse_onto-reverse old [] (cells new ++ [])
        ∙ ap (λ items. old ++ items) (append-nil (cells new)))
