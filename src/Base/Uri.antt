-- ===== src/Base/Uri.antt =====
-- `encodeURIComponent`: letters, digits and -_.!~*'() stay, and every other character becomes the
-- percent-encoded bytes of its UTF-8 form.
use Prim.Native.Nat.{ℕ, ◌+◌, ◌/◌, ◌%◌}
use Prim.Native.Char.{code}
use Prim.Native.String
use Prim.Native.String.{String}
use mathlib.Core.Path.{◌≡◌, refl}
use mathlib.Core.Bool.{Bool, ◌&&◌, ◌||◌}
use client_server_with_lb_de.Base.Tests.{ltb, leb, ◌=ℕ◌, if◌then◌else◌}

is_unreserved : ℕ → Bool
is_unreserved c =
    (leb b'a' c && leb c b'z')
    || (leb b'A' c && leb c b'Z')
    || (leb b'0' c && leb c b'9')
    || c =ℕ b'-'
    || c =ℕ b'_'
    || c =ℕ b'.'
    || c =ℕ b'!'
    || c =ℕ b'~'
    || c =ℕ b'*'
    || c =ℕ 39
    || c =ℕ b'('
    || c =ℕ b')'

hex_text : ℕ → String
hex_text d =
    if d =ℕ 0
    then "0"
    else if d =ℕ 1
    then "1"
    else if d =ℕ 2
    then "2"
    else if d =ℕ 3
    then "3"
    else if d =ℕ 4
    then "4"
    else if d =ℕ 5
    then "5"
    else if d =ℕ 6
    then "6"
    else if d =ℕ 7
    then "7"
    else if d =ℕ 8
    then "8"
    else if d =ℕ 9
    then "9"
    else if d =ℕ 10
    then "A"
    else if d =ℕ 11
    then "B"
    else if d =ℕ 12
    then "C"
    else if d =ℕ 13
    then "D"
    else if d =ℕ 14
    then "E"
    else "F"

-- One byte as %XX, in front of `rest`.
percent : ℕ → String → String
unfolding hex_text
percent byte rest =
    String.◌++◌ "%" (String.◌++◌ (hex_text (byte / 16)) (String.◌++◌ (hex_text (byte % 16)) rest))

-- The UTF-8 bytes of a code point, in front of `rest`.
percent_utf8 : ℕ → String → String
unfolding percent
percent_utf8 c rest =
    if ltb c 0x80
    then percent c rest
    else if ltb c 0x800
    then percent (0xc0 + c / 0x40) (percent (0x80 + c % 0x40) rest)
    else if ltb c 0x10000
    then percent (0xe0 + c / 0x1000)
        (percent (0x80 + c / 0x40 % 0x40) (percent (0x80 + c % 0x40) rest))
    else percent (0xf0 + c / 0x40000) (
        percent (0x80 + c / 0x1000 % 0x40)
          (percent (0x80 + c / 0x40 % 0x40) (percent (0x80 + c % 0x40) rest)))

unfoldable pub encode_uri_component : String → String
unfolding is_unreserved percent_utf8
encode_uri_component String.[] = ""
encode_uri_component (String.◌∷◌ c s) =
    let rest = encode_uri_component s in
    if is_unreserved (code c) then String.◌∷◌ c rest else percent_utf8 (code c) rest

encode_uri_component_example : encode_uri_component "café & co" ≡ "caf%C3%A9%20%26%20co"
unfolding encode_uri_component
encode_uri_component_example = refl
