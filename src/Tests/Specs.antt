-- ===== src/Tests/Specs.antt =====
-- Label values, parameters and CPU requests.
use postgreslet.Prelude.{
  ℕ, ◌+◌, ◌*◌, ◌/◌, ◌≤◌, ◌≡◌, refl, ◌↔◌, true, Bool, ◌&&◌, none, some, List, [], ◌∷◌, ◌++◌, arith,
  leb, ◌=?◌, text_eq, length, min, All, if◌then◌else◌,
}
use postgreslet.Prelude.Int.{pos, negsuc}
use postgreslet.Text.{
  Text, codes, is_alnum, is_label_char, replace_invalid, collapse_run, trim_left, trim_right,
}
use postgreslet.Text.Classes.{IsLabelChar}
use postgreslet.Text.Trimming.{StartsAlnum, EndsAlnum}
use postgreslet.Text.Decimal.{format_int, parse_digits, atoi}
use postgreslet.Dict.{lookup, insert}
use postgreslet.Postgres.Labels.{IsLabelValue, DocumentedValidation, sanitize_label_value}
use postgreslet.Postgres.Labels.Laws.{sanitize_label_value-IsLabelValue, sanitize_label_value-fixed}
use postgreslet.Postgres.Params.{
  Quantities, shared_buffer_size, shared_buffer_parameter_key, own_parameters, to_parameters,
  enable_audit_logs, set_default_postgres_params, set_postgres_params,
}
use postgreslet.Postgres.Params.Laws.{
  first_set, given, lookup-to_parameters, shared_buffer_size-some,
}
use postgreslet.Postgres.Cpu.{request_millis}
use postgreslet.Postgres.Cpu.Laws.{request_millis-bounds}
use postgreslet.Tests.Data.{shop}

all_label_chars : Text → Bool
all_label_chars [] = true
all_label_chars (c ∷ v) = is_label_char c && all_label_chars v

starts_alnum : Text → Bool
starts_alnum [] = true
starts_alnum (c ∷ _) = is_alnum c

ends_alnum : Text → Bool
ends_alnum [] = true
ends_alnum (c ∷ []) = is_alnum c
ends_alnum (c ∷ d ∷ v) = ends_alnum (d ∷ v)

all_label_chars_iff : (v : Text) → (all_label_chars v ≡ true) ↔ All IsLabelChar v
unfolding all_label_chars
all_label_chars_iff [] = (λ h. tt, λ h. refl)
all_label_chars_iff (c ∷ v) =
    let (to, from) = all_label_chars_iff v in
    (λ h. (ground arith, to (ground arith)), λ h. ground (arith, from h.1))

starts_alnum_iff : (v : Text) → (starts_alnum v ≡ true) ↔ StartsAlnum v
unfolding starts_alnum
starts_alnum_iff [] = (λ h. tt, λ h. refl)
starts_alnum_iff (c ∷ v) = (λ h. h, λ h. h)

ends_alnum_iff : (v : Text) → (ends_alnum v ≡ true) ↔ EndsAlnum v
unfolding ends_alnum
ends_alnum_iff [] = (λ h. tt, λ h. refl)
ends_alnum_iff (c ∷ []) = (λ h. h, λ h. h)
ends_alnum_iff (c ∷ d ∷ v) = ends_alnum_iff (d ∷ v)

-- A validation that meets what is documented.
validate : Text → List Text
validate v =
    if leb (length v) 63 && all_label_chars v && starts_alnum v && ends_alnum v
    then []
    else codes "invalid" ∷ []

validate-documented : DocumentedValidation validate
unfolding validate
validate-documented v = (
  λ h. record {
    fits = ground arith;
    chars = (all_label_chars_iff v).0 (ground arith);
    starts = (starts_alnum_iff v).0 (ground arith);
    ends = (ends_alnum_iff v).0 (ground arith);
  },
  λ h. ground (
    arith,
    (all_label_chars_iff v).1 h.chars,
    (starts_alnum_iff v).1 h.starts,
    (ends_alnum_iff v).1 h.ends,
    h.fits,
  ),
)

sanitized : sanitize_label_value validate (codes "--my (old) DB__1!") ≡ codes "my_old_DB_1"
unfolding sanitize_label_value validate all_label_chars starts_alnum ends_alnum replace_invalid
    collapse_run trim_left trim_right
sanitized = refl

sanitize_label_value-IsLabelValue_example :
    IsLabelValue (sanitize_label_value validate (codes "--my (old) DB__1!"))
sanitize_label_value-IsLabelValue_example =
    sanitize_label_value-IsLabelValue validate validate-documented (codes "--my (old) DB__1!")

sanitize_label_value-fixed_example :
    ((sanitize_label_value validate (codes "a b") ≡ codes "a b") ↔ IsLabelValue (codes "a b"))
    × (sanitize_label_value validate (sanitize_label_value validate (codes "a b"))
        ≡ sanitize_label_value validate (codes "a b"))
sanitize_label_value-fixed_example =
    sanitize_label_value-fixed validate validate-documented (codes "a b")

-- Quantities without units.
abbrev plain : Quantities
plain = record {
  Quantity = ℕ;
  parse_quantity = λ t. parse_digits 0 t;
  as_int64 = λ n. some (pos n);
  milli_value = λ n. pos (n * 1000);
  format_milli = λ z. elim z [ pos n ↦ format_int n | negsuc n ↦ [] ];
}

parameters_of_shop :
    (lookup
        (codes "log_statement")
        (to_parameters plain shop (codes "67108864") (codes "work_mem" ∷ []))
      ≡ some (codes "all"))
    × (lookup
          (codes "work_mem")
          (to_parameters plain shop (codes "67108864") (codes "work_mem" ∷ []))
        ≡ none)
    × (lookup (codes "shared_buffers") (to_parameters plain shop (codes "67108864") [])
        ≡ some (codes "64MB"))
unfolding to_parameters enable_audit_logs set_default_postgres_params set_postgres_params
    parse_digits atoi format_int lookup insert text_eq
parameters_of_shop = (refl, refl, refl)

lookup-to_parameters_example :
    lookup (codes "work_mem") (to_parameters plain shop (codes "67108864") [])
    ≡ first_set
        (if shared_buffer_parameter_key =? codes "work_mem"
          then shared_buffer_size plain (codes "67108864")
          else none)
        (first_set
          (given [] shop.spec.postgres_params (codes "work_mem"))
          (lookup (codes "work_mem") (own_parameters none (codes "13"))))
unfolding lookup text_eq
lookup-to_parameters_example =
    lookup-to_parameters plain shop (codes "67108864") [] (codes "work_mem") (refl, (refl, tt))

shared_buffer_size-some_example :
    (digits : Text) × (shared_buffer_size plain (codes "67108864") ≡ some (digits ++ codes "MB"))
    × (parse_digits 0 digits ≡ some (67108864 / 1048576))
    × (32 ≤ 67108864 / 1048576)
unfolding parse_digits
shared_buffer_size-some_example =
    shared_buffer_size-some plain (codes "67108864") 67108864 67108864 refl refl (omega arith)

request_millis-bounds_example :
    (r : ℕ) × (request_millis (pos 550) (pos 150) ≡ pos r)
    × (r ≤ 550)
    × (r * 100 ≤ 550 * 150)
    × (min (550 * 150) (550 * 100) ≤ r * 100 + 100 * 150)
request_millis-bounds_example = request_millis-bounds 550 150 (omega arith)
