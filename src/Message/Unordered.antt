-- ===== src/Message/Unordered.antt =====
-- c_src/parser.cc: the map of the headers as the virtual machine sees it, without an order of its
-- entries.
use mathlib.Core.Quot
use mathlib.Core.Quot.{Quot, Quot-set}
use elixir_sippet.Base.{
  List, Bytes, ok, traverse, ok_inj, ◌≡◌, ◌≢◌, sym, ap, ◌∙◌, arith, if◌then◌else◌, some,
}
use elixir_sippet.Iterators.Headers.{HeaderLine}
use elixir_sippet.Iterators.Split.{split_headers}
use elixir_sippet.Message.Header.{parse_header}
use elixir_sippet.Message.HeaderMap.{same_name_iff, get_header-put_header}
use elixir_sippet.Message.Merge.{values_of, merge, parse_headers-merge}
use elixir_sippet.Message.{Headers, get_header, put_header, parse_headers}
use elixir_sippet.Value.{Name, same_name, Value, Runtime}

-- Two maps that give the same under every name.
abbrev SameEntries : Headers → Headers → Type 0
SameEntries m m' = (name : Name) → get_header name m ≡ get_header name m'

abbrev Entries : Type 0
Entries = Quot SameEntries

abbrev pub entries : Headers → Entries
entries m = Quot.mk m

put_header-SameEntries :
    (k : Name) (v : Value) (m m' : Headers)
    → SameEntries m m'
    → SameEntries (put_header k v m) (put_header k v m')
put_header-SameEntries k v m m' h name =
    get_header-put_header name k v m
    ∙ ap (λ o. if same_name k name then some v else o) (h name)
    ∙ sym (get_header-put_header name k v m')

-- `enif_make_map_put` on a map without order.
pub put_entry : Name → Value → Entries → Entries
put_entry k v =
    Quot.lift Quot-set (λ m. Quot.mk (put_header k v m))
      λ m m' h. Quot.sound (put_header-SameEntries k v m m' h)

put_header_swap :
    (j k : Name) (v w : Value) (m : Headers)
    → j ≢ k
    → SameEntries (put_header j v (put_header k w m)) (put_header k w (put_header j v m))
put_header_swap j k v w m ne name = ground (
  arith,
  get_header-put_header name j v (put_header k w m),
  get_header-put_header name k w m,
  get_header-put_header name k w (put_header j v m),
  get_header-put_header name j v m,
  same_name_iff j name,
  same_name_iff k name,
)

-- Headers of different names can be put into the map in either order.
put_entry_comm :
    (j k : Name) (v w : Value)
    → j ≢ k
    → (e : Entries) → put_entry j v (put_entry k w e) ≡ put_entry k w (put_entry j v e)
unfolding put_entry
put_entry_comm j k v w ne =
    Quot.ind (λ e. Quot-set _ _) (λ m. Quot.sound (put_header_swap j k v w m ne))

-- The order of headers of different names makes no difference: two texts whose headers give each
-- name the same values in the same order, and are both accepted, give the same map, seen without an
-- order of its entries.
pub parse_headers-unordered :
    (vm : Runtime) (s t : Bytes) (ps qs : List (Name × Value)) (m m' : Headers)
    → traverse (λ (h : HeaderLine). parse_header vm h.name h.values) (split_headers s) ≡ ok ps
    → traverse (λ (h : HeaderLine). parse_header vm h.name h.values) (split_headers t) ≡ ok qs
    → ((name : Name) → values_of name ps ≡ values_of name qs)
    → parse_headers vm s ≡ ok m
    → parse_headers vm t ≡ ok m'
    → entries m ≡ entries m'
parse_headers-unordered vm s t ps qs m m' parsed parsed' same h h' =
    let (ps', all, merged) = parse_headers-merge vm s m h in
    let (qs', all', merged') = parse_headers-merge vm t m' h' in
    let ps≡ : ps' ≡ ps = ok_inj (sym all ∙ parsed) in
    let qs≡ : qs' ≡ qs = ok_inj (sym all' ∙ parsed') in
    Quot.sound λ name.
      merged name
      ∙ ap (λ rs. merge (values_of name rs)) ps≡
      ∙ ap merge (same name)
      ∙ ap (λ rs. merge (values_of name rs)) (sym qs≡)
      ∙ sym (merged' name)
