-- ===== src/StringTokenizer/Machine.antt =====
-- c_src/string_tokenizer.h: `StringTokenizerT` with its whole state. An iterator is the text from it to
-- `end_`.
pub mod Pieces
pub mod Calls
pub mod Plain
use elixir_sippet.Base.{
  ℕ, ◌-◌, ◌%◌, Bool, true, false, not, ◌&&◌, [], ◌∷◌, Bytes, length, ◌==◌, if◌then◌else◌,
}
use elixir_sippet.StringTokenizer.{AdvanceState, initial, advance_one, full_take}
use elixir_sippet.Tokenizer.{finds, span, end_of_input, first_n}

pub record TokenizerState : Type 0 where
  pub start_pos : Bytes
  pub token_begin : Bytes
  pub token_end : Bytes
  pub delims : Bytes
  pub quotes : Bytes
  pub options : ℕ
  pub token_is_delim : Bool

-- `Init`
unfoldable pub init : Bytes → Bytes → TokenizerState
init string delims = record {
  start_pos = string;
  token_begin = string;
  token_end = string;
  delims = delims;
  quotes = [];
  options = 0;
  token_is_delim = false;
}

-- `set_options`
unfoldable pub set_options : ℕ → TokenizerState → TokenizerState
set_options options t = record t { options = options }

-- `set_quote_chars`
unfoldable pub set_quote_chars : Bytes → TokenizerState → TokenizerState
set_quote_chars quotes t = record t { quotes = quotes }

-- `Reset`
unfoldable pub reset : TokenizerState → TokenizerState
reset t = record t { token_end = t.start_pos }

-- `token`
unfoldable pub token : TokenizerState → Bytes
unfolding first_n
token t = first_n (length t.token_begin - length t.token_end) t.token_begin

-- `options_ & RETURN_DELIMS`
abbrev pub returns_delims : TokenizerState → Bool
returns_delims t = t.options % 2 == 1

-- What `GetNext` returns, and the members that it sets.
pub record Scan : Type 0 where
  pub found : Bool
  pub is_delim : Bool
  pub begin : Bytes
  pub end : Bytes

-- `QuickGetNext`
unfoldable pub quick_scan : Bytes → Bytes → Scan
unfolding span finds
quick_scan delims [] = record { found = false; is_delim = false; begin = []; end = [] }
quick_scan delims (c ∷ s) =
    let further = quick_scan delims s in
    let (_, rest) = span (λ x. not (finds delims x)) s in
    if finds delims c
    then further
    else record { found = true; is_delim = false; begin = c ∷ s; end = rest }

module _ (keep : Bool) (delims quotes : Bytes) where
  -- `FullGetNext`, from the state of a round of its first loop on; `keep` is the test of RETURN_DELIMS.
  unfoldable pub full_scan : AdvanceState → Bytes → Scan
  unfolding advance_one full_take
  full_scan st [] = record { found = false; is_delim = false; begin = []; end = [] }
  full_scan st (c ∷ s) =
      let step = advance_one delims quotes st c in
      let (_, rest) = full_take delims quotes step.1 s in
      let further = full_scan step.1 s in
      if step.0
      then record { found = true; is_delim = false; begin = c ∷ s; end = rest }
      else if keep
      then record { found = true; is_delim = true; begin = c ∷ s; end = s }
      else further

-- The routine that `GetNext` calls.
unfoldable pub scan : TokenizerState → Scan
unfolding quick_scan full_scan
scan t =
    if end_of_input t.quotes && t.options == 0
    then quick_scan t.delims t.token_end
    else full_scan (returns_delims t) t.delims t.quotes initial t.token_end

-- `GetNext`
unfoldable pub get_next : TokenizerState → Bool × TokenizerState
unfolding scan
get_next t = (
  (scan t).found,
  record t {
    token_begin = (scan t).begin;
    token_end = (scan t).end;
    token_is_delim = (scan t).is_delim;
  },
)
