-- ===== src/Transaction/Timers.antt =====
-- lib/sippet/timers.ex: the timers of a transaction.
use elixir_sippet.Base.{ℕ, ◌*◌, ◌≡◌, arith, Option, none, some, leb, if◌then◌else◌}

-- The keys of the maps of timers.
pub data Timer : Type 0 where
  t1 t2 t4 timer_a timer_b timer_d timer_e timer_f timer_g timer_h timer_i timer_j timer_k : Timer
  before_trying : Timer

abbrev pub Timers : Type 0
Timers = Timer → Option ℕ

-- `Map.get(timers, name, default)`
unfoldable pub timer : Timers → Timer → ℕ → ℕ
timer timers name default = elim (timers name) [ none ↦ default | some time ↦ time ]

abbrev default_t1 : ℕ
default_t1 = 500

abbrev default_t2 : ℕ
default_t2 = 4000

abbrev default_t4 : ℕ
default_t4 = 5000

abbrev max : ℕ → ℕ → ℕ
max a b = if leb a b then b else a

-- The map `base` of `resolve`
unfoldable pub base_timers : ℕ → ℕ → ℕ → Timers
base_timers one two four t1 = some one
base_timers one two four t2 = some two
base_timers one two four t4 = some four
base_timers one two four timer_a = some one
base_timers one two four timer_b = some (64 * one)
base_timers one two four timer_d = some (max 32000 (64 * one))
base_timers one two four timer_e = some one
base_timers one two four timer_f = some (64 * one)
base_timers one two four timer_g = some one
base_timers one two four timer_h = some (64 * one)
base_timers one two four timer_i = some four
base_timers one two four timer_j = some (64 * one)
base_timers one two four timer_k = some four
base_timers one two four before_trying = none

-- `resolve`: an override takes the place of what follows from `t1`, `t2` and `t4`.
unfoldable pub resolve : Timers → Timers
unfolding timer base_timers
resolve overrides name =
    let one = timer overrides t1 default_t1 in
    let two = timer overrides t2 default_t2 in
    let four = timer overrides t4 default_t4 in
    elim (overrides name) [ none ↦ base_timers one two four name | some time ↦ some time ]

-- `defaults`
unfoldable pub default_timers : Timers
unfolding base_timers
default_timers timer_d = some 32000
default_timers name = base_timers default_t1 default_t2 default_t4 name

-- `resolve` and the timers of an INVITE that follow from T1.
pub resolve-invite :
    (overrides : Timers)
    → overrides timer_a ≡ none
    → overrides timer_b ≡ none
    → (timer (resolve overrides) timer_a 500 ≡ timer overrides t1 500)
      × (timer (resolve overrides) timer_b 32000 ≡ timer overrides t1 500 * 64)
unfolding resolve timer
resolve-invite overrides a b = (ground arith, ground arith)
