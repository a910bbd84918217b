-- ===== src/Model/Source.antt =====
-- src/model.rs: the ids and labels of sources.
use Prim.Native.Char.{code}
use Prim.Native.String.{String, len}
use text.Mathlib.Text.{◌==◌ as str_eq}
use mempool_atlas.Prelude.{ℕ, Bool, ◌||◌, not, List, [], ◌∷◌, all, ltb, ◌==◌, within, is_empty}
use mempool_atlas.Results.{Result, reject}
use mempool_atlas.Model.Error.{ModelError, invalid_source_id, invalid_source_label}

abbrev pub codes : String → List ℕ
codes String.[] = []
codes (String.◌∷◌ c s) = code c ∷ codes s

-- The bytes of an ASCII character are its code; a byte of another character is at least 128, and
-- so is its code.
abbrev pub is_source_id_byte : ℕ → Bool
is_source_id_byte b =
    within 48 57 b || within 65 90 b || within 97 122 b || b == 46 || b == 95 || b == 45

unfoldable pub validate_source_id : String → Result ModelError Unit
validate_source_id value =
    reject
      (is_empty (codes value)
        || (str_eq value "." || str_eq value "..")
        || ltb 64 (len value)
        || not (all is_source_id_byte (codes value)))
      (invalid_source_id value)

-- `char::is_whitespace`
abbrev pub is_whitespace : ℕ → Bool
is_whitespace c =
    within 9 13 c
    || c == 32
    || c == 133
    || c == 160
    || c == 5760
    || within 8192 8202 c
    || within 8232 8233 c
    || c == 8239
    || c == 8287
    || c == 12288

-- A trimmed text is empty when it holds whitespace only.
unfoldable pub validate_source_label : String → Result ModelError Unit
validate_source_label value =
    reject (all is_whitespace (codes value) || ltb 128 (len value)) (invalid_source_label value)
