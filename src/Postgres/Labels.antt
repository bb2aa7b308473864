-- ===== src/Postgres/Labels.antt =====
-- `sanitizeLabelValue` of api/v1/postgres_types.go. `validation.IsValidLabelValue` belongs to
-- Kubernetes: it is the parameter `is_valid_label_value`, which returns a list of messages.
pub mod Laws
use postgreslet.Prelude.{ℕ, ◌≡◌, ◌≤◌, ◌↔◌, List, [], ltb, ◌==◌, length, take, All, if◌then◌else◌}
use postgreslet.Text.{Text, replace_invalid, collapse_underscores, trim, trim_right}
use postgreslet.Text.Classes.{IsLabelChar}
use postgreslet.Text.Trimming.{StartsAlnum, EndsAlnum}

-- A valid label value: at most 63 characters, each a letter, a digit, `.`, `_` or `-`, the first
-- and the last a letter or a digit. The empty text is one.
pub record IsLabelValue (v : Text) : Type 0 where
  pub fits : length v ≤ 63
  pub chars : All IsLabelChar v
  pub starts : StartsAlnum v
  pub ends : EndsAlnum v

-- What Kubernetes documents of its validation: no message is returned exactly of a valid value.
abbrev pub DocumentedValidation : (Text → List Text) → Type 0
DocumentedValidation is_valid_label_value =
    (v : Text) → (length (is_valid_label_value v) ≡ 0) ↔ IsLabelValue v

-- The two last steps: a text that is too long is cut, and trimmed once more.
unfoldable pub cut_label_value : Text → Text
cut_label_value v = if ltb 63 (length v) then trim_right (take 63 v) else v

module _ (is_valid_label_value : Text → List Text) where
  unfoldable pub sanitize_label_value : Text → Text
  unfolding cut_label_value
  sanitize_label_value v =
      if length (is_valid_label_value v) == 0
      then v
      else cut_label_value (trim (collapse_underscores (replace_invalid v)))
