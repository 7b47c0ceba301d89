-- ===== src/Message/Accepts.antt =====
-- c_src/parser.cc: messages for which the loop of `Parse` over the headers meets no error.
use elixir_sippet.Base.Yields.{fold_results}
use elixir_sippet.Base.{
  false, List, [], ◌∷◌, some, Bytes, All, Result, ok, ◌>>=◌, traverse, >>=-ok, ok_inj, some_inj,
  >>=-congr, ◌≡◌, refl, sym, ◌∙◌, arith, Bool-cases, inl, inr, if◌then◌else◌,
}
use elixir_sippet.Iterators.Headers.{HeaderLine}
use elixir_sippet.Message.Assemble.Folding.{crlf}
use elixir_sippet.Message.Header.{parse_header}
use elixir_sippet.Message.HeaderMap.{same_name_iff, get_header-put_header}
use elixir_sippet.Message.Merge.{
  values_of, merge, Adds, fresh, longer, refused, add_header-Adds, add_all-get,
}
use elixir_sippet.Message.Write.Headers.{IsWritten}
use elixir_sippet.Message.Write.Lines.{OneLine}
use elixir_sippet.Message.Write.ReadBack.{parse-message_text}
use elixir_sippet.Message.Write.{message_text}
use elixir_sippet.Message.{
  Message, Headers, ok_message, get_header, put_header, add_header, parse_start_line, parse,
}
use elixir_sippet.StartLine.{StartLine}
use elixir_sippet.Value.{Name, same_name, Item, Value, one, many, Runtime}

-- No header stands behind one of its name whose value is no list.
abbrev NoRepeat : List (Name × Value) → Type 0
NoRepeat [] = Unit
NoRepeat ((n, one item) ∷ ps) = (values_of n ps ≡ []) × NoRepeat ps
NoRepeat ((n, many items) ∷ ps) = NoRepeat ps

-- The headers to come have no name under which the map has a value that is no list.
abbrev Ready : Headers → List (Name × Value) → Type 0
Ready m ps = (j : Name) (item : Item) → get_header j m ≡ some (one item) → values_of j ps ≡ []

values_of-tail :
    (j : Name) (p : Name × Value) (ps : List (Name × Value))
    → values_of j (p ∷ ps) ≡ []
    → (same_name p.0 j ≡ false) × (values_of j ps ≡ [])
values_of-tail j (k, v) ps h = ground arith

put_header-Ready :
    (k : Name) (v w : Value) (m : Headers) (ps : List (Name × Value))
    → ((item : Item) → w ≡ one item → values_of k ps ≡ [])
    → Ready m ((k, v) ∷ ps)
    → Ready (put_header k w m) ps
put_header-Ready k v w m ps single ready j item h = elim (Bool-cases (same_name k j)) [
  | inl same ↦
      let put : (if same_name k j then some w else get_header j m) ≡ some (one item) =
        sym (get_header-put_header j k w m) ∙ h in
      let is_one : w ≡ one item = some_inj (rw same at put) in
      rw (← (same_name_iff k j).0 same) (single item is_one)
  | inr other ↦
      let put : (if same_name k j then some w else get_header j m) ≡ some (one item) =
        sym (get_header-put_header j k w m) ∙ h in
      (values_of-tail j (k, v) ps (ready j item (rw other at put))).1
]

single_value :
    (k : Name) (v : Value) (ps : List (Name × Value))
    → NoRepeat ((k, v) ∷ ps)
    → ((item : Item) → v ≡ one item → values_of k ps ≡ []) × NoRepeat ps
single_value k (one item) ps (none_left, h) = (λ _ _. none_left, h)
single_value k (many items) ps h = (λ item e. absurd cc, h)

same_name_refl : (k : Name) → same_name k k ≡ false → ⊥
same_name_refl k h = absurd (ground (arith, (same_name_iff k k).1 refl))

add-Ready :
    (k : Name) (v : Value) (m : Headers) (ps : List (Name × Value)) {r : Result Headers}
    → NoRepeat ((k, v) ∷ ps)
    → Ready m ((k, v) ∷ ps)
    → Adds k v m r
    → (m' : Headers) × (r ≡ ok m') × Ready m' ps
add-Ready k v m ps h ready (fresh e) =
    (put_header k v m, refl, put_header-Ready k v v m ps (single_value k v ps h).0 ready)
add-Ready k v m ps h ready (longer {items} e) =
    (_, refl, put_header-Ready k v _ m ps (λ item w. absurd cc) ready)
add-Ready k v m ps h ready (refused {item} e) =
    absurd (same_name_refl k (values_of-tail k (k, v) ps (ready k item e)).0)

add_all-ok :
    (ps : List (Name × Value)) (m : Headers)
    → NoRepeat ps
    → Ready m ps
    → (m' : Headers) × (fold_results add_header ps m ≡ ok m')
add_all-ok [] m h ready = (m, refl)
add_all-ok ((k, v) ∷ ps) m h ready =
    let (m1, added, ready') = add-Ready k v m ps h ready (add_header-Adds k v m) in
    let (m', e) = add_all-ok ps m1 (single_value k v ps h).1 ready' in (m', rw added e)

parsed-fold :
    (vm : Runtime) (hs : List HeaderLine) (ps : List (Name × Value)) (m : Headers)
    → traverse (λ (h : HeaderLine). parse_header vm h.name h.values) hs ≡ ok ps
    → fold_results
        (λ h headers. parse_header vm h.name h.values >>= λ header. add_header header headers)
        hs
        m
      ≡ fold_results add_header ps m
parsed-fold vm [] ps m h = rw (← ok_inj h) refl
parsed-fold vm (x ∷ hs) ps m h =
    let parse_line = λ (h : HeaderLine). parse_header vm h.name h.values in
    let (p, parsed, rest) =
      >>=-ok (parse_line x) (λ b. traverse parse_line hs >>= λ bs. ok (b ∷ bs)) ps h in
    let (ps', all, same) = >>=-ok (traverse parse_line hs) (λ bs. ok (p ∷ bs)) ps rest in
    rw (parsed, ← ok_inj same) (>>=-congr (add_header p m) _ _ λ m1. parsed-fold vm hs ps' m1 all)

-- A written message is accepted if its first line can be parsed, each of its headers can be parsed,
-- and no header stands behind one of its name whose value is no list. The message that is returned
-- has that start line, and under each name what merging the values of its headers gives.
pub parse-accepts :
    (vm : Runtime) (line : Bytes) (start : StartLine) (hs : List HeaderLine)
    (ps : List (Name × Value))
    → OneLine line
    → All IsWritten hs
    → parse_start_line vm line ≡ ok start
    → traverse (λ (h : HeaderLine). parse_header vm h.name h.values) hs ≡ ok ps
    → NoRepeat ps
    → (m : Message) × (parse vm (crlf (message_text line hs)) ≡ ok_message m)
      × (m.start_line ≡ start)
      × ((name : Name) → get_header name m.headers ≡ merge (values_of name ps))
parse-accepts vm line start hs ps line_ok h first all single =
    let (headers, added) = add_all-ok ps [] single (λ j item e. absurd (unfold get_header in cc)) in
    (
      record { start_line = start; headers = headers },
      parse-message_text vm line hs line_ok h ∙ rw (first, parsed-fold vm hs ps [] all, added) refl,
      refl,
      λ name. add_all-get ps [] headers added name ∙ (unfold get_header in refl),
    )
