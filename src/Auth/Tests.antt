-- ===== src/Auth/Tests.antt =====
-- src/auth/resource.rs: the theorem on challenges at a value that would close its quotes.
use sml_mcps.Prelude.{◌≡◌, refl, false, some, ◌∷◌, ◌++◌}
use sml_mcps.Prelude.Text.{Text, text}
use sml_mcps.Auth.Resource.{escape}
use sml_mcps.Auth.Quoted.{read_quoted, read_quoted-escape}

abbrev forging : Text
forging = text "https://a/\" , scope=\"admin\\"

read_quoted-escape_example :
    read_quoted false (escape forging ++ b'"' ∷ text ", scope=\"read\"")
    ≡ some (forging, text ", scope=\"read\"")
read_quoted-escape_example = read_quoted-escape forging (text ", scope=\"read\"")

escape_ran : escape (text "a\"b\\") ≡ text "a\\\"b\\\\"
unfolding escape text
escape_ran = refl
