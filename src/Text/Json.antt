-- ===== src/Text/Json.antt =====
-- A line of JSON: one object, whose texts stand as they are, without an escape.
use ai_auth.Common.{◌++◌, Bool, true, false, List, [], ◌∷◌}
use ai_auth.Text.{Str, str}

pub data Value : Type 0 where
  text : Str → Value
  flag : Bool → Value

abbrev quoted : Str → Str
quoted s = str "\"" ++ (s ++ str "\"")

abbrev written : Value → Str
written (text s) = quoted s
written (flag true) = str "true"
written (flag false) = str "false"

abbrev member : Str × Value → Str
member (key, v) = quoted key ++ (str ":" ++ written v)

abbrev others : List (Str × Value) → Str
others [] = str "}\n"
others (m ∷ rest) = str "," ++ (member m ++ others rest)

unfoldable pub json_line : List (Str × Value) → Str
json_line [] = str "{}\n"
json_line (m ∷ rest) = str "{" ++ (member m ++ others rest)
