-- ===== src/Std/Path.antt =====
-- path.Clean, on the components of a path, and url.QueryEscape.
use tokyo3_base.Base.{
  ℕ, ◌+◌, ◌/◌, ◌%◌, Bool, true, false, ◌&&◌, ◌||◌, List, [], ◌∷◌, ◌++◌, Bytes, bytes_eq, text,
  has_prefix, ltb, leb, ◌==◌, if◌then◌else◌,
}
use mathlib.Core.List.{reverse}
use tokyo3_base.Std.Split.{split_on, join_with}

-- One `..`: it takes the component before it away; at the root it is dropped, and elsewhere kept.
up : Bool → List Bytes → List Bytes
up true [] = []
up false [] = text ".." ∷ []
up rooted (p ∷ ps) = if bytes_eq p (text "..") then text ".." ∷ p ∷ ps else ps

-- The components that remain, the last first.
clean_parts : Bool → List Bytes → List Bytes → List Bytes
unfolding up
clean_parts rooted done [] = done
clean_parts rooted done (p ∷ ps) =
    clean_parts rooted
      (if bytes_eq p [] || bytes_eq p (text ".")
        then done
        else if bytes_eq p (text "..")
        then up rooted done
        else p ∷ done)
      ps

or_dot : Bytes → Bytes
or_dot [] = text "."
or_dot (c ∷ s) = c ∷ s

unfoldable pub clean : Bytes → Bytes
unfolding clean_parts or_dot
clean p =
    let rooted = has_prefix p (text "/") in
    let body = join_with b'/' (reverse (clean_parts rooted [] (split_on b'/' p))) in
    if rooted then b'/' ∷ body else or_dot body

hex_upper : ℕ → ℕ
hex_upper n = if ltb n 10 then 48 + n else 55 + n

is_unreserved : ℕ → Bool
is_unreserved c =
    (leb b'a' c && leb c b'z')
    || (leb b'A' c && leb c b'Z')
    || (leb b'0' c && leb c b'9')
    || (c == b'-')
    || (c == b'_')
    || (c == b'.')
    || (c == b'~')

escape_byte : ℕ → Bytes
unfolding hex_upper is_unreserved
escape_byte c =
    if is_unreserved c
    then c ∷ []
    else if c == b' '
    then b'+' ∷ []
    else b'%' ∷ hex_upper (c / 16) ∷ hex_upper (c % 16) ∷ []

-- url.QueryEscape.
unfoldable pub query_escape : Bytes → Bytes
unfolding escape_byte
query_escape [] = []
query_escape (c ∷ s) = escape_byte c ++ query_escape s
