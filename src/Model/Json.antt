-- ===== src/Model/Json.antt =====
-- `json.Valid` of the standard library: the scanner of `encoding/json`, a step function over a mode
-- and the stack of open containers, run over the code points of a text.
use Prim.Native.Char.{code}
use project_ariadne.Base.{
  ℕ, zero, suc, ◌≡◌, refl, String, Bool, true, false, ◌&&◌, ◌||◌, Option, none, some, List, [], ◌∷◌,
  ◌==◌, nat_eq, leb, length, if◌then◌else◌, ◌>>=?◌,
}

abbrev codes : String → List ℕ
codes String.[] = []
codes (String.◌∷◌ c s) = code c ∷ codes s

pub data Context : Type 0 where
  object_key object_value array_value : Context

-- `literal` holds what is still to come of `true`, `false` or `null`; `in_hex n` reads n + 1 digits.
pub data Mode : Type 0 where
  begin_value begin_value_or_empty begin_string_or_empty begin_string : Mode
  in_string in_escape : Mode
  in_hex : ℕ → Mode
  negative one zero_digit dot fraction exponent exponent_sign exponent_digits : Mode
  literal : List ℕ → Mode
  end_value end_top : Mode

abbrev Scan : Type 0
Scan = Option (Mode × List Context)

is_json_space : ℕ → Bool
is_json_space c = c == 32 || c == 9 || c == 13 || c == 10

is_digit : ℕ → Bool
is_digit c = leb b'0' c && leb c b'9'

is_hex : ℕ → Bool
unfolding is_digit
is_hex c = is_digit c || leb b'a' c && leb c b'f' || leb b'A' c && leb c b'F'

is_escape : ℕ → Bool
is_escape c =
    c == b'"'
    || c == 92
    || c == b'/'
    || c == b'b'
    || c == b'f'
    || c == b'n'
    || c == b'r'
    || c == b't'

-- The scanner refuses more than 10000 open containers.
push : Mode → Context → List Context → Scan
push mode context stack = if leb 10000 (length stack) then none else some (mode, context ∷ stack)

pop : List Context → Scan
pop [] = some (end_top, [])
pop (context ∷ stack) = some (end_value, context ∷ stack)

-- A character after a complete value.
after_value : List Context → ℕ → Scan
unfolding is_json_space pop
after_value [] c = if is_json_space c then some (end_top, []) else none
after_value (object_key ∷ stack) c =
    if is_json_space c
    then some (end_value, object_key ∷ stack)
    else (if c == b':' then some (begin_value, object_value ∷ stack) else none)
after_value (object_value ∷ stack) c =
    if is_json_space c
    then some (end_value, object_value ∷ stack)
    else (if c == b','
        then some (begin_string, object_key ∷ stack)
        else (if c == b'}' then pop stack else none))
after_value (array_value ∷ stack) c =
    if is_json_space c
    then some (end_value, array_value ∷ stack)
    else (if c == b','
        then some (begin_value, array_value ∷ stack)
        else (if c == b']' then pop stack else none))

start_value : List Context → ℕ → Scan
unfolding is_json_space is_digit push
start_value stack c =
    if is_json_space c
    then some (begin_value, stack)
    else (if c == b'{'
        then push begin_string_or_empty object_key stack
        else (if c == b'['
            then push begin_value_or_empty array_value stack
            else (if c == b'"'
                then some (in_string, stack)
                else (if c == b'-'
                    then some (negative, stack)
                    else (if c == b'0'
                        then some (zero_digit, stack)
                        else (if is_digit c
                            then some (one, stack)
                            else (if c == b't'
                                then some (literal (codes "rue"), stack)
                                else (if c == b'f'
                                    then some (literal (codes "alse"), stack)
                                    else (if c == b'n'
                                        then some (literal (codes "ull"), stack)
                                        else none)))))))))

start_string : List Context → ℕ → Scan
unfolding is_json_space
start_string stack c =
    if is_json_space c
    then some (begin_string, stack)
    else (if c == b'"' then some (in_string, stack) else none)

after_integer : List Context → ℕ → Scan
unfolding after_value
after_integer stack c =
    if c == b'.'
    then some (dot, stack)
    else (if c == b'e' || c == b'E' then some (exponent, stack) else after_value stack c)

step : Mode → List Context → ℕ → Scan
unfolding after_value start_value start_string after_integer is_hex is_escape
step begin_value stack c = start_value stack c
step begin_value_or_empty stack c =
    if is_json_space c
    then some (begin_value_or_empty, stack)
    else (if c == b']' then after_value stack c else start_value stack c)
step begin_string_or_empty [] c = start_string [] c
step begin_string_or_empty (context ∷ stack) c =
    if is_json_space c
    then some (begin_string_or_empty, context ∷ stack)
    else (if c == b'}'
        then after_value (object_value ∷ stack) c
        else start_string (context ∷ stack) c)
step begin_string stack c = start_string stack c
step in_string stack c =
    if c == b'"'
    then some (end_value, stack)
    else (if c == 92
        then some (in_escape, stack)
        else (if leb c 31 then none else some (in_string, stack)))
step in_escape stack c =
    if c == b'u'
    then some (in_hex 3, stack)
    else (if is_escape c then some (in_string, stack) else none)
step (in_hex zero) stack c = if is_hex c then some (in_string, stack) else none
step (in_hex (suc n)) stack c = if is_hex c then some (in_hex n, stack) else none
step negative stack c =
    if c == b'0' then some (zero_digit, stack) else (if is_digit c then some (one, stack) else none)
step one stack c = if is_digit c then some (one, stack) else after_integer stack c
step zero_digit stack c = after_integer stack c
step dot stack c = if is_digit c then some (fraction, stack) else none
step fraction stack c =
    if is_digit c
    then some (fraction, stack)
    else (if c == b'e' || c == b'E' then some (exponent, stack) else after_value stack c)
step exponent stack c =
    if c == b'+' || c == b'-'
    then some (exponent_sign, stack)
    else (if is_digit c then some (exponent_digits, stack) else none)
step exponent_sign stack c = if is_digit c then some (exponent_digits, stack) else none
step exponent_digits stack c =
    if is_digit c then some (exponent_digits, stack) else after_value stack c
step (literal []) stack c = after_value stack c
step (literal (d ∷ [])) stack c = if c == d then some (end_value, stack) else none
step (literal (d ∷ e ∷ ds)) stack c = if c == d then some (literal (e ∷ ds), stack) else none
step end_value stack c = after_value stack c
step end_top stack c = after_value [] c

run : List ℕ → Mode → List Context → Scan
unfolding step
run [] mode stack = some (mode, stack)
run (c ∷ cs) mode stack = step mode stack c >>=? λ st. run cs st.0 st.1

is_end_top : Scan → Bool
is_end_top (some (end_top, stack)) = true
is_end_top _ = false

-- At the end of the input the scanner takes one more space.
unfoldable pub json_valid : String → Bool
unfolding run is_end_top
json_valid text = is_end_top (run (codes text) begin_value [] >>=? λ st. step st.0 st.1 32)

accepts_object : json_valid "{\"page\": [1, -2.5e3, null, \"x\\u00e9\"]}" ≡ true
unfolding json_valid
accepts_object = refl

rejects_trailing_comma : json_valid "[1,]" ≡ false
unfolding json_valid
rejects_trailing_comma = refl
