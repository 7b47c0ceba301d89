-- ===== src/Format/Forms/Via.antt =====
-- c_src/parser.cc: the version and the port of a Via header.
use elixir_sippet.Base.Int.{ℤ, pos, negsuc, eqb_ℤ, ◌≤ℤ◌}
use elixir_sippet.Base.{
  form_rules, ℕ, ◌≤◌, ◌-◌, true, false, not, ◌||◌, Option, none, some, Bytes, ◌>>=◌, Ensures,
  returns, fails, Ensures-bind, Ensures-chain, ◌≡◌, refl, arith, if◌then◌else◌,
}
use elixir_sippet.Ascii.{is_digit}
use elixir_sippet.Field.Params.{parse_parameters}
use elixir_sippet.Field.Via.{parse_via, sent_by, parse_sent_by, default_port}
use elixir_sippet.Format.{via_params}
use elixir_sippet.HostPort.Sound.{IsPort, absent, empty, number, parse_host_and_port_sound}
use elixir_sippet.HostPort.{parse_host_and_port}
use elixir_sippet.Number.Range.{IsInt}
use elixir_sippet.StartLine.{parse_version, version_number}
use elixir_sippet.Value.{Runtime}
use elixir_sippet.Format.Forms.{IsForm, via_form}

digit-le : (c : ℕ) → is_digit c ≡ true → c - b'0' ≤ 9
digit-le c h = ground arith

digits_of_test :
    (a b : ℕ) → (not (is_digit a) || not (is_digit b)) ≡ false → (a - b'0' ≤ 9) × (b - b'0' ≤ 9)
digits_of_test a b h = ground arith

abbrev pub IsVersion : ℕ × ℕ → Type 0
IsVersion v = (v.0 ≤ 9) × (v.1 ≤ 9)

pub parse_version-IsVersion : (s : Bytes) → Ensures IsVersion (parse_version s)
unfolding parse_version version_number
parse_version-IsVersion s = search (form_rules, digits_of_test) depth 9

IsPort-le : {rest : Bytes} {p : ℤ} → IsPort rest p → (negsuc 0 ≤ℤ p) × (p ≤ℤ pos 2147483647)
IsPort-le absent = omega arith
IsPort-le empty = omega arith
IsPort-le (number ne d le) = omega arith

abbrev InPort : ℤ → Type 0
InPort p = (pos 0 ≤ℤ p) × IsInt p

default_port-InPort : (protocol : Bytes) → InPort (default_port protocol)
unfolding default_port
default_port-InPort protocol = ground arith

chosen_port :
    (protocol host s : Bytes) (port : ℤ)
    → parse_host_and_port s ≡ some (host, port)
    → InPort (if eqb_ℤ port (negsuc 0) then default_port protocol else port)
chosen_port protocol host s port h =
    let (rest, e, shape, p) = parse_host_and_port_sound s host port h in
    ground (arith, IsPort-le p, default_port-InPort protocol)

sent_by-InPort :
    (vm : Runtime) (version : ℕ × ℕ) (protocol rest : Bytes) (r : Option (Bytes × ℤ))
    → ((host : Bytes) (port : ℤ)
        → r ≡ some (host, port)
        → InPort (if eqb_ℤ port (negsuc 0) then default_port protocol else port))
    → IsVersion version
    → Ensures (λ v. IsVersion v.version × InPort v.port) (sent_by vm version protocol rest r)
unfolding sent_by
sent_by-InPort vm version protocol rest none h v = fails
sent_by-InPort vm version protocol rest (some (host, port)) h v = returns (v, h host port refl)

parse_sent_by-InPort :
    (vm : Runtime) (version : ℕ × ℕ) (s : Bytes)
    → IsVersion version
    → Ensures (λ v. IsVersion v.version × InPort v.port) (parse_sent_by vm version s)
unfolding parse_sent_by
parse_sent_by-InPort vm version s v = search (form_rules, sent_by-InPort, chosen_port) depth 9

via_rest :
    (vm : Runtime) (text s : Bytes)
    → Ensures
        (λ v. IsVersion v.version × InPort v.port)
        (parse_version text >>= λ version. parse_sent_by vm version s)
via_rest vm text s =
    Ensures-chain (λ version. parse_sent_by vm version s) (parse_version-IsVersion text)
      λ version h. parse_sent_by-InPort vm version s h

parse_via-InPort :
    (vm : Runtime) (s : Bytes) → Ensures (λ v. IsVersion v.version × InPort v.port) (parse_via vm s)
unfolding parse_via
parse_via-InPort vm s = search (form_rules, via_rest) depth 9

pub via_params-IsForm : (vm : Runtime) (s : Bytes) → Ensures (IsForm via_form) (via_params vm s)
unfolding via_params
via_params-IsForm vm s =
    Ensures-chain _ (parse_via-InPort vm s)
      λ v h. Ensures-bind (parse_parameters v.rest) _ λ m. returns (h.0.0, h.0.1, h.1.0, h.1.1)
