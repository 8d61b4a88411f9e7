-- ===== src/Text.antt =====
-- Go strings, as lists of code points, and the functions of package strings that the program
-- uses. The laws are in the modules below.
pub mod Laws
pub mod Decimal
pub mod Maps
pub mod Paths
pub mod Spans
use Prim.Native.Char.{code}
use Prim.Native.String.{String}
use hooversion.Common.{
  ℕ, zero, suc, ◌+◌, ◌-◌, Bool, true, false, not, ◌&&◌, ◌||◌, List, [], ◌∷◌, ◌++◌, map, Option,
  none, some, leb, ltb, ◌==◌, if◌then◌else◌, length, any, all, drop,
}

abbrev pub Text : Type 0
Text = List ℕ

-- The code points of a literal.
abbrev pub codes : String → Text
codes String.[] = []
codes (String.◌∷◌ c s) = code c ∷ codes s

-- s == t
unfoldable pub text_eq : Text → Text → Bool
text_eq [] [] = true
text_eq (x ∷ s) (y ∷ t) = x == y && text_eq s t
text_eq _ _ = false

-- The loop `for _, v := range values { if v == want { return true } }`.
unfoldable pub contains : List Text → Text → Bool
unfolding text_eq
contains [] want = false
contains (v ∷ values) want = text_eq v want || contains values want

-- strings.HasPrefix
unfoldable pub has_prefix : Text → Text → Bool
has_prefix s [] = true
has_prefix [] (p ∷ prefix) = false
has_prefix (c ∷ s) (p ∷ prefix) = c == p && has_prefix s prefix

-- strings.IndexByte(s, c) >= 0
unfoldable pub has_rune : ℕ → Text → Bool
has_rune c = any (λ d. d == c)

-- strings.ContainsAny(s, chars)
unfoldable pub contains_any : Text → Text → Bool
unfolding has_rune
contains_any s chars = any (λ c. has_rune c chars) s

-- unicode.IsSpace
unfoldable pub is_space : ℕ → Bool
is_space c =
    (leb 9 c && leb c 13)
    || c == 0x20
    || c == 0x85
    || c == 0xa0
    || c == 0x1680
    || (leb 0x2000 c && leb c 0x200a)
    || c == 0x2028
    || c == 0x2029
    || c == 0x202f
    || c == 0x205f
    || c == 0x3000

-- The longest run of a class of runes at the front, and the text behind it: what a greedy match
-- of the class takes and leaves.
unfoldable pub take_while : (ℕ → Bool) → Text → Text
take_while p [] = []
take_while p (c ∷ s) = if p c then c ∷ take_while p s else []

unfoldable pub drop_while : (ℕ → Bool) → Text → Text
drop_while p [] = []
drop_while p (c ∷ s) = if p c then drop_while p s else c ∷ s

-- strings.TrimLeftFunc and strings.TrimRightFunc
unfoldable pub trim_left : (ℕ → Bool) → Text → Text
trim_left p [] = []
trim_left p (c ∷ s) = if p c then trim_left p s else c ∷ s

unfoldable pub trim_right : (ℕ → Bool) → Text → Text
trim_right p [] = []
trim_right p (c ∷ s) =
    let rest = trim_right p s in elim rest [ [] ↦ if p c then [] else c ∷ [] | d ∷ t ↦ c ∷ d ∷ t ]

-- strings.TrimSpace
unfoldable pub trim_space : Text → Text
unfolding trim_left trim_right is_space
trim_space s = trim_right is_space (trim_left is_space s)

abbrev pub cons_first : ℕ → List Text → List Text
cons_first c [] = (c ∷ []) ∷ []
cons_first c (p ∷ parts) = (c ∷ p) ∷ parts

-- strings.Split(s, sep) for a separator of one rune.
unfoldable pub split : Text → ℕ → List Text
split [] sep = [] ∷ []
split (c ∷ s) sep = let parts = split s sep in if c == sep then [] ∷ parts else cons_first c parts

-- strings.Join
unfoldable pub join : List Text → Text → Text
join [] sep = []
join (p ∷ []) sep = p
join (p ∷ q ∷ parts) sep = p ++ (sep ++ join (q ∷ parts) sep)

-- strings.ReplaceAll for a nonempty `old`; `skip` counts the runes of a match still to be passed.
replace_from : Text → Text → ℕ → Text → Text
replace_from old new skip [] = []
replace_from old new (suc skip) (c ∷ s) = replace_from old new skip s
replace_from old new zero (c ∷ s) = elim (has_prefix (c ∷ s) old) [
  | true ↦ new ++ replace_from old new (length old - 1) s
  | false ↦ c ∷ replace_from old new 0 s
]

unfoldable pub replace_all : Text → Text → Text → Text
unfolding replace_from has_prefix
replace_all s old new = replace_from old new 0 s

-- strings.Index(s, sub), with none for -1
unfoldable pub index : Text → Text → Option ℕ
unfolding has_prefix
index [] sub = if has_prefix [] sub then some 0 else none
index (c ∷ s) sub =
    let later = index s sub in
    if has_prefix (c ∷ s) sub then some 0 else elim later [ none ↦ none | some i ↦ some (suc i) ]

-- strings.LastIndex(s, c) for one rune
unfoldable pub last_index : Text → ℕ → Option ℕ
last_index [] c = none
last_index (d ∷ s) c = elim (last_index s c) [
  | none ↦ if d == c then some 0 else none
  | some i ↦ some (suc i)
]

-- strings.Count(s, sub) for a nonempty `sub`
count_from : Text → ℕ → Text → ℕ
count_from sub skip [] = 0
count_from sub (suc skip) (c ∷ s) = count_from sub skip s
count_from sub zero (c ∷ s) = elim (has_prefix (c ∷ s) sub) [
  | true ↦ suc (count_from sub (length sub - 1) s)
  | false ↦ count_from sub 0 s
]

unfoldable pub count : Text → Text → ℕ
unfolding count_from has_prefix
count s sub = count_from sub 0 s

-- Lower case of the ASCII letters. Other code points take `lower`, unicode.ToLower of the caller.
unfoldable pub to_lower : (ℕ → ℕ) → Text → Text
to_lower lower =
    map (λ c. if leb b'A' c && leb c b'Z' then c + 32 else if ltb c 128 then c else lower c)

-- len(s) of a string that holds these code points in UTF-8
unfoldable pub byte_len : Text → ℕ
byte_len [] = 0
byte_len (c ∷ s) =
    (if ltb c 0x80 then 1 else if ltb c 0x800 then 2 else if ltb c 0x10000 then 3 else 4)
    + byte_len s

-- Whether a word goes on at the front of the text.
abbrev starts_word : Text → Bool
starts_word [] = false
starts_word (c ∷ s) = not (is_space c)

-- strings.Fields
unfoldable pub fields : Text → List Text
unfolding is_space
fields [] = []
fields (c ∷ s) =
    let words = fields s in
    if is_space c then words else if starts_word s then cons_first c words else (c ∷ []) ∷ words

-- The text before the first `sep`, and the text behind it, as strings.Cut has them.
unfoldable pub cut_rune : Text → ℕ → Option (Text × Text)
cut_rune [] sep = none
cut_rune (c ∷ s) sep =
    let later = cut_rune s sep in
    if c == sep
    then some ([], s)
    else elim later [ none ↦ none | some (before, after) ↦ some (c ∷ before, after) ]
