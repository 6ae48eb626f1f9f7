-- ===== src/Display/Cover/Laws.antt =====
-- The name in a drawn cover.
use lucky_scratch.Prelude.{ℕ, zero, suc, Bool, ◌||◌, [], ◌∷◌, ◌==◌, if◌then◌else◌}
use lucky_scratch.Prelude.Texts.{Text, codes, starts_with}

-- One pass over the name.
abbrev entity : ℕ → Text
entity c =
    if c == b'&'
    then codes "&amp;"
    else if c == b'<'
    then codes "&lt;"
    else if c == b'>'
    then codes "&gt;"
    else c ∷ []

-- The character that the text after an ampersand names, and how much of that text to skip: an
-- ampersand that starts no whole entity stands for itself.
abbrev pub meant : Text → ℕ × ℕ
meant s =
    if starts_with s (codes "amp;")
    then (b'&', 4)
    else if starts_with s (codes "lt;")
    then (b'<', 3)
    else if starts_with s (codes "gt;")
    then (b'>', 3)
    else (b'&', 0)

-- What a reader of the markup makes of a text.
abbrev pub decode : ℕ → Text → Text
decode n [] = []
decode (suc n) (c ∷ s) = decode n s
decode zero (c ∷ s) = if c == b'&' then (meant s).0 ∷ decode (meant s).1 s else c ∷ decode zero s

abbrev pub is_angle : ℕ → Bool
is_angle c = c == b'<' || c == b'>'
