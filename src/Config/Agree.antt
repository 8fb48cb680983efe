-- ===== src/Config/Agree.antt =====
-- src/config/jail.rs and src/config/loader.rs: the two parsers of specs.
use rail2ban.Prelude.{◌≡◌, refl, inl, inr, ◌==◌, Option-cases, Str, trim, split_once}
use rail2ban.Error.{◌>>=◌, ok}
use rail2ban.Config.Specs.{parse_filter_spec, action_name, action_params}

-- The parser of filter specs gives the name and the parameters that the two functions for action specs
-- give, and fails when the second does.
pub parse_filter_spec-action_params :
    (spec : Str)
    → parse_filter_spec spec ≡ (action_params spec >>= λ params. ok (action_name spec, params))
unfolding parse_filter_spec action_name action_params
parse_filter_spec-action_params spec =
    elim (Option-cases (split_once (λ c. c == b'[') (trim spec))) [
      | inl e ↦ rw e refl
      | inr ((name, rest), e) ↦ rw e refl
    ]
