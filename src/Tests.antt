-- ===== src/Tests.antt =====
-- The virtual machine of the runs of the model; the runs, and the theorems at inputs that meet their
-- hypotheses, are in the modules below.
mod Fields
mod Messages
mod Writing
mod Formats
mod Machines
mod Texts
mod Transactions
mod Keys
mod Routing
use elixir_sippet.Base.{none}
use elixir_sippet.HeaderList.{loaded_atoms}
use elixir_sippet.HeaderList
use elixir_sippet.Message.Errors.{is_among}
use elixir_sippet.Value.{Runtime}

-- A virtual machine that holds the atoms of `on_load`.
abbrev vm : Runtime
vm = record {
  atom_exists = λ s. is_among s loaded_atoms;
  stod = λ s. none;
  parse_time = λ s. none;
  normalize_time = λ t. t;
}
