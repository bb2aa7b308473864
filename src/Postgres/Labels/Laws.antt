-- ===== src/Postgres/Labels/Laws.antt =====
-- `sanitizeLabelValue` returns a valid label value, and leaves a valid one alone.
use postgreslet.Prelude.{
  ◌≡◌, ◌↔◌, false, inl, inr, List, arith, ltb, ◌==◌, Bool-cases, length, length-take, take, All,
  All-take,
}
use postgreslet.Text.{Text, replace_invalid, collapse_underscores, trim_left, trim}
use postgreslet.Text.Classes.{IsLabelChar, replace_invalid-All, collapse_run-All}
use postgreslet.Text.Trimming.{
  StartsAlnum, EndsAlnum, trim_left-All, trim_right-All, trim_left-StartsAlnum,
  trim_right-StartsAlnum, trim_right-EndsAlnum, take-StartsAlnum, length-trim_right,
}
use postgreslet.Postgres.Labels.{
  IsLabelValue, DocumentedValidation, cut_label_value, sanitize_label_value,
}

-- A trimmed text of label characters, cut where it is too long, is a label value.
cut_label_value-IsLabelValue :
    (v : Text) → All IsLabelChar v → StartsAlnum v → EndsAlnum v → IsLabelValue (cut_label_value v)
unfolding cut_label_value
cut_label_value-IsLabelValue v chars starts ends = elim (Bool-cases (ltb 63 (length v))) [
  | inl long ↦ rw long (record {
    fits = omega (arith, length-trim_right (take 63 v), length-take 63 v);
    chars = trim_right-All IsLabelChar (take 63 v) (All-take IsLabelChar 63 v chars);
    starts = trim_right-StartsAlnum (take 63 v) (take-StartsAlnum 63 v starts);
    ends = trim_right-EndsAlnum (take 63 v) (All-take IsLabelChar 63 v chars);
  })
  | inr short ↦
      rw short (record { fits = ground arith; chars = chars; starts = starts; ends = ends })
]

-- A text of label characters, trimmed and cut.
trimmed-IsLabelValue : (v : Text) → All IsLabelChar v → IsLabelValue (cut_label_value (trim v))
trimmed-IsLabelValue v chars =
    let left : All IsLabelChar (trim_left v) = trim_left-All IsLabelChar v chars in
    cut_label_value-IsLabelValue (trim v) (trim_right-All IsLabelChar (trim_left v) left)
      (trim_right-StartsAlnum (trim_left v) (trim_left-StartsAlnum v chars))
      (trim_right-EndsAlnum (trim_left v) left)

module _ (is_valid : Text → List Text) (documented : DocumentedValidation is_valid) where
  -- Over a validation that is as documented: whatever the text is, what `sanitizeLabelValue`
  -- returns is a valid label value.
  pub sanitize_label_value-IsLabelValue :
      (v : Text) → IsLabelValue (sanitize_label_value is_valid v)
  unfolding sanitize_label_value
  sanitize_label_value-IsLabelValue v = elim (Bool-cases (length (is_valid v) == 0)) [
    | inl valid ↦ rw valid ((documented v).0 (ground arith))
    | inr invalid ↦ rw invalid (
        trimmed-IsLabelValue (collapse_underscores (replace_invalid v))
          (collapse_run-All false _ (replace_invalid-All v)))
  ]

  sanitize_label_value_of_valid : (v : Text) → IsLabelValue v → sanitize_label_value is_valid v ≡ v
  unfolding sanitize_label_value
  sanitize_label_value_of_valid v h = ground (arith, (documented v).1 h)

  -- Over a validation that is as documented: sanitizing changes nothing exactly where the text is
  -- valid already, and a second time nothing.
  pub sanitize_label_value-fixed :
      (v : Text)
      → ((sanitize_label_value is_valid v ≡ v) ↔ IsLabelValue v)
        × (sanitize_label_value is_valid (sanitize_label_value is_valid v)
            ≡ sanitize_label_value is_valid v)
  sanitize_label_value-fixed v = (
    (λ e. rw e at (sanitize_label_value-IsLabelValue v), sanitize_label_value_of_valid v),
    sanitize_label_value_of_valid _ (sanitize_label_value-IsLabelValue v),
  )
