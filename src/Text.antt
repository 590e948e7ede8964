-- ===== src/Text.antt =====
-- What cmd/cache/main.go and internal/cluster/cluster.go use of Go's `strings`, `strconv` and `net`:
-- splitting and trimming a text, decimal numbers, and addresses of a host and a port. A text has a
-- character for each byte, and the white space is that of ASCII.
pub mod Addresses
pub mod Decimals
mod Tests
use Prim.Native.Char.{Char, code}
use Prim.Native.String.{◌++◌ as append}
use self_healing_distributed.Prelude.{
  ℕ, zero, suc, ◌+◌, ◌-◌, ◌*◌, ◌/◌, ◌%◌, String, get_or, Bool, true, false, ◌&&◌, ◌||◌, not, Option,
  none, some, List, [], ◌∷◌, leb, ltb, ◌==◌, nat_key, string_key, if◌then◌else◌,
}
use self_healing_distributed.Prelude.Int64.{two63, two64, slt}

-- Codes of the separators.
abbrev pub comma : ℕ
comma = 44

abbrev pub colon : ℕ
colon = 58

abbrev pub open_bracket : ℕ
open_bracket = 91

abbrev pub close_bracket : ℕ
close_bracket = 93

-- `strings.IndexByte(s, b) >= 0`
unfoldable pub contains : ℕ → String → Bool
contains b String.[] = false
contains b (String.◌∷◌ c s) = code c == b || contains b s

-- `strings.HasPrefix(s, ":")`, for any one byte
unfoldable pub starts_with : ℕ → String → Bool
starts_with b String.[] = false
starts_with b (String.◌∷◌ c s) = code c == b

cons_head : Char → List String → List String
cons_head c [] = []
cons_head c (x ∷ xs) = String.◌∷◌ c x ∷ xs

-- `strings.Split`, by one byte
unfoldable pub split : ℕ → String → List String
unfolding cons_head
split b String.[] = "" ∷ []
split b (String.◌∷◌ c s) =
    let rest = split b s in if code c == b then "" ∷ rest else cons_head c rest

is_space : Char → Bool
is_space c = code c == 32 || leb 9 (code c) && leb (code c) 13

trim_left : String → String
unfolding is_space
trim_left String.[] = ""
trim_left (String.◌∷◌ c s) = let rest = trim_left s in if is_space c then rest else String.◌∷◌ c s

trim_right : String → String
unfolding is_space
trim_right String.[] = ""
trim_right (String.◌∷◌ c s) =
    let rest = trim_right s in if is_space c && rest == "" then "" else String.◌∷◌ c rest

-- `strings.TrimSpace`
unfoldable pub trim_space : String → String
unfolding trim_left trim_right
trim_space s = trim_right (trim_left s)

is_digit : Char → Bool
is_digit c = leb 48 (code c) && leb (code c) 57

-- the number that the digits write after those of `n`; `none` where one of them is no digit
digits_value : ℕ → String → Option ℕ
unfolding is_digit
digits_value n String.[] = some n
digits_value n (String.◌∷◌ c s) =
    let rest = digits_value (n * 10 + (code c - 48)) s in if is_digit c then rest else none

-- the number, and whether there was no error: on one out of range it is the nearest `int`
signed : Bool → Option ℕ → ℕ × Bool
signed negative none = (0, false)
signed false (some n) = if ltb n two63 then (n, true) else (two63 - 1, false)
signed true (some n) = if leb n two63 then ((two64 - n) % two64, true) else (two63, false)

number_part : Bool → String → ℕ × Bool
unfolding signed digits_value
number_part negative s = if s == "" then (0, false) else signed negative (digits_value 0 s)

-- `strconv.Atoi`
unfoldable pub atoi : String → ℕ × Bool
unfolding number_part
atoi String.[] = (0, false)
atoi (String.◌∷◌ c s) =
    if code c == 45
    then number_part true s
    else if code c == 43
    then number_part false s
    else number_part false (String.◌∷◌ c s)

-- `strconv.Itoa`, of a number that is not negative
abbrev pub digits : List String
digits = "0" ∷ "1" ∷ "2" ∷ "3" ∷ "4" ∷ "5" ∷ "6" ∷ "7" ∷ "8" ∷ "9" ∷ []

pub digit : ℕ → String
digit d = get_or digits d ""

pub itoa_loop : ℕ → ℕ → String
unfolding digit
itoa_loop zero n = ""
itoa_loop (suc fuel) n = elim (ltb n 10) [
  | true ↦ digit n
  | false ↦ append (itoa_loop fuel (n / 10)) (digit (n % 10))
]

unfoldable pub itoa : ℕ → String
unfolding itoa_loop
itoa n = itoa_loop (suc n) n

-- the same for any `int`
unfoldable pub decimal : ℕ → String
unfolding itoa
decimal n = if slt n 0 then append "-" (itoa (two64 - n)) else itoa n

-- What stands before and after the last, and the first, of a byte.
unfoldable pub split_last : ℕ → String → Option (String × String)
split_last b String.[] = none
split_last b (String.◌∷◌ c s) = elim (split_last b s) [
  | some (x, y) ↦ some (String.◌∷◌ c x, y)
  | none ↦ if code c == b then some ("", s) else none
]

unfoldable pub split_first : ℕ → String → Option (String × String)
split_first b String.[] = none
split_first b (String.◌∷◌ c s) = elim (code c == b) [
  | true ↦ some ("", s)
  | false ↦ elim (split_first b s) [ some (x, y) ↦ some (String.◌∷◌ c x, y) | none ↦ none ]
]

-- the host in brackets, which must reach to the last colon
in_brackets : Option (String × String) → String → Option (String × String)
in_brackets none port = none
in_brackets (some (host, rest)) port =
    if rest == ""
      && not (contains open_bracket host || contains open_bracket port)
      && not (contains close_bracket port)
    then some (host, port)
    else none

plain : String → String → Option (String × String)
plain host port =
    if contains colon host
      || contains open_bracket host
      || contains open_bracket port
      || contains close_bracket host
      || contains close_bracket port
    then none
    else some (host, port)

host_port : String → String → Option (String × String)
unfolding in_brackets plain
host_port String.[] port = plain "" port
host_port (String.◌∷◌ c front) port = elim (code c == open_bracket) [
  | true ↦ in_brackets (split_first close_bracket front) port
  | false ↦ plain (String.◌∷◌ c front) port
]

-- `net.SplitHostPort`; `none` is its error
unfoldable pub split_host_port : String → Option (String × String)
unfolding host_port
split_host_port address = elim (split_last colon address) [
  | none ↦ none
  | some (front, port) ↦ host_port front port
]

-- `net.JoinHostPort`
unfoldable pub join_host_port : String → String → String
join_host_port host port =
    if contains colon host
    then append "[" (append host (append "]:" port))
    else append host (append ":" port)
