-- ===== src/Config/Validators/Tests.antt =====
-- The validators at small values. The floats are natural numbers and an address is its text.
use bindxdb.Prelude.{
  ℕ, String, true, false, some, List, [], ◌∷◌, pos, ltb, nat_eq, pos_part, ok, err, ◌==◌,
  if◌then◌else◌,
}
use bindxdb.Go.Value.{Floats}
use bindxdb.Config.Types.{Validator}
use bindxdb.Config.Manager.Getters.{Conversions}
use bindxdb.Config.Validators.{
  Addresses, FileValidator, IpValidator, required_validate, port_validate,
}

abbrev whole_floats : Floats
whole_floats = record { Float = ℕ; of_int = pos_part; to_int = pos; eq = nat_eq; lt = ltb }

abbrev conversions : Conversions ℕ
conversions = record {
  number_to_int64 = λ s. err "not a number";
  number_to_float64 = λ s. err "not a number";
  parse_duration = λ s. if s == "1s" then ok (pos 1000000000) else err "not a duration";
}

abbrev texts : Addresses
texts = record {
  Ip = String;
  Net = String;
  parse_ip = λ s. some s;
  is_v4 = λ s. true;
  parse_cidr = λ s. ok s;
  in_net = λ n s. n == s;
}

abbrev two_checks : List (Validator ℕ)
two_checks = required_validate ∷ port_validate whole_floats (λ s. err "no") (pos 1) (pos 100) ∷ []

abbrev local_only : IpValidator texts
local_only = record { allow_ipv4 = true; allow_ipv6 = false; cidrs = "127.0.0.1" ∷ [] }

abbrev existing : FileValidator
existing = record { must_exist = true; must_be_dir = false; must_be_file = true; permissions = 0 }
