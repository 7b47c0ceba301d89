-- ===== src/Nif/Wrapper.antt =====
-- c_src/parser.cc: which calls of the NIF are refused.
use elixir_sippet.Base.{List, [], ◌∷◌, Bytes, ◌≡◌, ◌≢◌, refl, arith}
use elixir_sippet.Message.{parse}
use elixir_sippet.Nif.{
  Argument, binary_term, other_term, badarg, nif_reply, parse_argument, parse_wrapper,
}
use elixir_sippet.Value.{Runtime}

-- `parse_wrapper` refuses every call but one with a single binary, and passes the reply of `Parse`, or
-- the exception that was made in it, on to that one.
parse_wrapper-nif_reply :
    (vm : Runtime) (argv : List Argument)
    → (((s : Bytes) → argv ≢ binary_term s ∷ []) → parse_wrapper vm argv ≡ badarg)
      × ((s : Bytes) → argv ≡ binary_term s ∷ [] → parse_wrapper vm argv ≡ nif_reply (parse vm s))
unfolding parse_wrapper parse_argument
parse_wrapper-nif_reply vm [] = (λ h. refl, λ s e. absurd cc)
parse_wrapper-nif_reply vm (binary_term s ∷ []) = (λ h. absurd (h s refl), λ t e. cc)
parse_wrapper-nif_reply vm (other_term ∷ []) = (λ h. refl, λ s e. absurd cc)
parse_wrapper-nif_reply vm (a ∷ b ∷ argv) = (λ h. ground arith, λ s e. absurd cc)
