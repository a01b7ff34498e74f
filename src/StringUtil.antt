-- ===== src/StringUtil.antt =====
-- src/StringUtil.cc: joining, splitting and matching of strings.
-- A string is the list of its characters, as numbers, and has no character 0.
pub mod Splitting
mod Tests
use homa.Base.{
  ℕ, zero, suc, ◌+◌, ◌-◌, Bool, true, false, ◌&&◌, List, [], ◌∷◌, ◌++◌, ltb, leb, ◌==◌,
  if◌then◌else◌, length, take, drop,
}

abbrev pub Chars : Type 0
Chars = List ℕ

-- `==` of strings.
abbrev pub equal : Chars → Chars → Bool
equal [] [] = true
equal [] (d ∷ t) = false
equal (c ∷ s) [] = false
equal (c ∷ s) (d ∷ t) = c == d && equal s t

-- `display`
unfoldable pub display : ℕ → Bool
display c = leb 32 c && ltb c 127

-- `isPrintable` of a string that ends with its only character 0.
unfoldable pub is_printable : Chars → Bool
is_printable [] = true
is_printable (c ∷ s) = display c && is_printable s

-- `join`
unfoldable pub join : List Chars → Chars → Chars
join [] glue = []
join (s ∷ []) glue = s
join (s ∷ t ∷ ss) glue = s ++ (glue ++ join (t ∷ ss) glue)

-- `std::getline`: the characters before the delimiter, and those after it.
unfoldable pub get_line : ℕ → Chars → Chars × Chars
get_line delimiter [] = ([], [])
get_line delimiter (c ∷ s) =
    let (item, rest) = get_line delimiter s in if c == delimiter then ([], s) else (c ∷ item, rest)

-- The loop of `split`; `getline` fails where no character is left.
unfoldable pub split_loop : ℕ → Chars → ℕ → List Chars
split_loop zero stream delimiter = []
split_loop (suc fuel) [] delimiter = []
split_loop (suc fuel) (c ∷ s) delimiter =
    let (item, rest) = get_line delimiter (c ∷ s) in item ∷ split_loop fuel rest delimiter

-- `split`: each round takes a character at least.
unfoldable pub split : Chars → ℕ → List Chars
split subject delimiter = split_loop (length subject) subject delimiter

-- `startsWith`
unfoldable pub starts_with : Chars → Chars → Bool
starts_with haystack needle = equal (take (length needle) haystack) needle

-- `endsWith`
unfoldable pub ends_with : Chars → Chars → Bool
ends_with haystack needle =
    if ltb (length haystack) (length needle)
    then false
    else equal (drop (length haystack - length needle) haystack) needle

-- `std::isspace` in the C locale.
unfoldable pub is_space : ℕ → Bool
is_space c = if c == 32 then true else leb 9 c && leb c 13

-- What is left from the first character that is no space on.
unfoldable pub trim_front : Chars → Chars
trim_front [] = []
trim_front (c ∷ s) = if is_space c then trim_front s else c ∷ s

-- What is left up to the last character that is no space.
unfoldable pub trim_back : Chars → Chars
trim_back [] = []
trim_back (c ∷ s) = keep_front c (trim_back s)
  where
    keep_front : ℕ → Chars → Chars
    keep_front c [] = if is_space c then [] else c ∷ []
    keep_front c (d ∷ t) = c ∷ d ∷ t

-- `trim`
unfoldable pub trim : Chars → Chars
trim original = trim_front (trim_back original)
