-- ===== src/Format/Lowercase.antt =====
-- `str::to_ascii_lowercase`.
use Prim.Native.String.{char_at, [], ◌∷◌}
use Prim.Native.Char.{Char, code}
use kotlogram.Base.{◌-◌, String, ◌&&◌, leb, if◌then◌else◌}

unfoldable pub lower : Char → Char
lower c =
    if leb 65 (code c) && leb (code c) 90
    then char_at "abcdefghijklmnopqrstuvwxyz" (code c - 65)
    else c

unfoldable pub to_ascii_lowercase : String → String
to_ascii_lowercase [] = []
to_ascii_lowercase (c ∷ s) = lower c ∷ to_ascii_lowercase s
