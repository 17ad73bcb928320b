-- ===== src/Prelude/Text.antt =====
-- Python's `str` operations that the program uses, over the native text: `strip`, `lower`, `len`
-- and `in`. `lower` maps the ASCII letters and leaves every other character.
use Prim.Native.Nat.{ℕ, suc}
use Prim.Native.Char.{Char, code}
use Prim.Native.String.{String}
use mathlib.Core.Bool.{Bool, true, false, ◌&&◌, ◌||◌}
use mathlib.Core.Option.{Option, none, some}
use open_aipoject.Prelude.Tests.{leb, ◌==◌, if◌then◌else◌}

-- `str.isspace` of one character.
unfoldable pub is_space : ℕ → Bool
is_space c =
    (leb 9 c && leb c 13)
    || (leb 28 c && leb c 32)
    || c == 133
    || c == 160
    || c == 5760
    || (leb 8192 c && leb c 8202)
    || c == 8232
    || c == 8233
    || c == 8239
    || c == 8287
    || c == 12288

abbrev pub is_empty : String → Bool
is_empty String.[] = true
is_empty (String.◌∷◌ c s) = false

unfoldable pub lstrip : String → String
unfolding is_space
lstrip String.[] = String.[]
lstrip (String.◌∷◌ c s) = if is_space (code c) then lstrip s else String.◌∷◌ c s

unfoldable pub rstrip : String → String
unfolding is_space
rstrip String.[] = String.[]
rstrip (String.◌∷◌ c s) =
    let rest = rstrip s in
    if is_empty rest && is_space (code c) then String.[] else String.◌∷◌ c rest

-- `str.strip()`
unfoldable pub strip : String → String
unfolding lstrip rstrip
strip s = rstrip (lstrip s)

-- `len(s)`, in characters.
unfoldable pub text_length : String → ℕ
text_length String.[] = 0
text_length (String.◌∷◌ c s) = suc (text_length s)

-- The character that stands in `to` where `c` stands in `from`; `c` itself if it stands nowhere.
translate : String → String → Char → Char
translate String.[] to c = c
translate (String.◌∷◌ u from) String.[] c = c
translate (String.◌∷◌ u from) (String.◌∷◌ l to) c =
    if code c == code u then l else translate from to c

-- `str.lower()`
unfoldable pub lower : String → String
unfolding translate
lower String.[] = String.[]
lower (String.◌∷◌ c s) =
    String.◌∷◌ (translate "ABCDEFGHIJKLMNOPQRSTUVWXYZ" "abcdefghijklmnopqrstuvwxyz" c) (lower s)

-- `s + t`
unfoldable pub append : String → String → String
append String.[] t = t
append (String.◌∷◌ c s) t = String.◌∷◌ c (append s t)

-- Whether `t` begins with `s`.
unfoldable pub has_prefix : String → String → Bool
has_prefix String.[] t = true
has_prefix (String.◌∷◌ c s) String.[] = false
has_prefix (String.◌∷◌ c s) (String.◌∷◌ d t) = code c == code d && has_prefix s t

-- `s in t`
unfoldable pub has_infix : String → String → Bool
unfolding has_prefix
has_infix s String.[] = is_empty s
has_infix s (String.◌∷◌ d t) = has_prefix s (String.◌∷◌ d t) || has_infix s t

-- `before` and `after` of `s.partition(":")`; `none` where there is no colon.
abbrev pub prepended : Char → Option (String × String) → Option (String × String)
prepended c none = none
prepended c (some (before, after)) = some (String.◌∷◌ c before, after)

unfoldable pub partition_colon : String → Option (String × String)
partition_colon String.[] = none
partition_colon (String.◌∷◌ c s) =
    let rest = prepended c (partition_colon s) in
    if code c == b':' then some (String.[], s) else rest
