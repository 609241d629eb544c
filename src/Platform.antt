-- ===== src/Platform.antt =====
-- What the program takes from Python's library and this library does not compute: the text of a value
-- that is no text, the clock's text forms, JSON printing and SHA-256. A theorem that takes a platform
-- holds for each, and `silent` is one.
use workspace_governance_con.Prelude.{
  ℕ, Bool, ◌&&◌, leb, List, [], ◌∷◌, Option, none, some, String, true, false, if◌then◌else◌,
}
use workspace_governance_con.Prelude.Text.{strip, is_empty}
use workspace_governance_con.Value.{Value, text, bool, or_else}

-- An instant is counted in microseconds from the first of January of the year 1, UTC.
pub record Platform : Type 0 where
  pub repr : Value → String  -- str() of a number, list or dict
  pub parse_iso : String → Option ℕ  -- datetime.fromisoformat, a naive time read as UTC
  pub iso_text : ℕ → String  -- datetime.isoformat() with "+00:00" replaced by "Z"
  pub dumps : Value → String  -- json.dumps(value, sort_keys=True, separators=(",", ":"))
  pub dumps_line : Value → String  -- json.dumps(value, sort_keys=True)
  pub float_eq : Value → Value → Bool  -- == where one side is a float
  pub is_decimal : ℕ → Bool  -- re's \d: a decimal digit of Unicode
  pub format : String → List (String × String) → Option String  -- str.format(**values), none if it raises
  pub split_command : String → Option (List String)  -- shlex.split, none if it raises
  pub quoted : String → String  -- json.dumps(text, ensure_ascii=False)
  pub sha256_hex : String → String  -- sha256(text.encode("utf-8")).hexdigest()

abbrev pub silent : Platform
silent = record {
  repr = λ _. "{}";
  parse_iso = λ s. if is_empty s then none else some 0;
  iso_text = λ _. "0001-01-01T00:00:00Z";
  dumps = λ _. "";
  dumps_line = λ _. "";
  float_eq = λ v w. false;
  is_decimal = λ c. leb 48 c && leb c 57;
  format = λ s values. some s;
  split_command = λ s. some (s ∷ []);
  quoted = λ s. s;
  sha256_hex = λ _. "e3b0c44298fc1c149afbf4c8996fb92427ae41e4649b934ca495991b7852b855";
}

unfoldable pub some_text : String → Option String
some_text s = if is_empty s then none else some s

module _ (p : Platform) where
  -- Python's `str(value)`.
  unfoldable pub str : Value → String
  str (text s) = s
  str (bool true) = "True"
  str (bool false) = "False"
  str v = p.repr v

  -- `_optional_str`: the stripped text of `value or ""`, or `None` where that is empty.
  unfoldable pub optional_str : Value → Option String
  unfolding str some_text or_else strip
  optional_str value = some_text (strip (str (or_else value (text ""))))
