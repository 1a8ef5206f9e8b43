-- ===== src/Glob.antt =====
-- lib/commands/glob.go: GlobMatch, the matcher of KEYS, SCAN MATCH and CONFIG GET. One round of its loop
-- looks at the head of the pattern; `rec` is the rest of the loop or the recursive call. Every round
-- leaves a shorter pattern, so the pattern's length is fuel enough.
pub mod Sound
pub mod Exact
use ultima.Base.{
  ◌≡◌, refl, ℕ, zero, suc, Bool, true, false, ◌&&◌, ◌||◌, Option, none, some, List, [], ◌∷◌, Bytes,
  length, codes, leb, ltb, ◌==◌, if◌then◌else◌,
}

-- What the pattern starts with: nothing, `*`, `?`, `[`, or a byte that must occur.
pub data Head : Type 0 where
  head_end : Head
  head_star head_any head_class : Bytes → Head
  head_byte : ℕ → Bytes → Head

-- A backslash at the end stands for itself.
abbrev escaped : Bytes → Head
escaped [] = head_byte b'\\' []
escaped (d ∷ p) = head_byte d p

unfoldable pub head : Bytes → Head
head [] = head_end
head (c ∷ p) =
    if c == b'*'
    then head_star p
    else if c == b'?'
    then head_any p
    else if c == b'['
    then head_class p
    else if c == b'\\'
    then escaped p
    else head_byte c p

unfoldable pub skip_stars : Bytes → Bytes
skip_stars [] = []
skip_stars (c ∷ p) = let rest = skip_stars p in if c == b'*' then rest else c ∷ p

abbrev pub is_negated : Bytes → Bool
is_negated [] = false
is_negated (c ∷ p) = c == b'^'

abbrev pub class_body : Bytes → Bytes
class_body [] = []
class_body (c ∷ p) = if c == b'^' then p else c ∷ p

-- `len(str) > 0 && c == str[0]`, and the range test with its ends swapped if need be.
abbrev hits : ℕ → Option ℕ → Bool
hits c none = false
hits c (some x) = c == x

abbrev in_range : ℕ → ℕ → Option ℕ → Bool
in_range a b none = false
in_range a b (some x) = if ltb b a then leb b x && leb x a else leb a x && leb x b

-- The inner loop: whether the byte is in the class, and the pattern behind `]`; `none` is an
-- unterminated class.
unfoldable pub class_scan : Bool → Option ℕ → Bytes → Option (Bool × Bytes)
class_scan m x [] = none
class_scan m x (c ∷ []) = if c == b'\\' then none else if c == b']' then some (m, []) else none
class_scan m x (c ∷ d ∷ []) =
    let rest = class_scan (m || hits c x) x (d ∷ []) in
    if c == b'\\' then none else if c == b']' then some (m, d ∷ []) else rest
class_scan m x (c ∷ d ∷ e ∷ p) =
    let escape = class_scan (m || hits d x) x (e ∷ p) in
    let range = class_scan (m || in_range c e x) x p in
    let single = class_scan (m || hits c x) x (d ∷ e ∷ p) in
    if c == b'\\'
    then escape
    else if c == b']'
    then some (m, d ∷ e ∷ p)
    else if d == b'-'
    then range
    else single

abbrev pub same_bool : Bool → Bool → Bool
same_bool true b = b
same_bool false true = false
same_bool false false = true

abbrev pub first : Bytes → Option ℕ
first [] = none
first (x ∷ s) = some x

-- A class that was scanned; on the empty text both tests of the source fail it.
unfoldable pub class_done : (Bytes → Bytes → Bool) → Bool → Bytes → Option (Bool × Bytes) → Bool
class_done rec negate s none = false
class_done rec negate [] (some (m, p)) = false
class_done rec negate (x ∷ s) (some (m, p)) = if same_bool m negate then false else rec p s

-- The rest at every position.
unfoldable pub any_suffix : (Bytes → Bool) → Bytes → Bool
any_suffix f [] = f []
any_suffix f (x ∷ s) = f (x ∷ s) || any_suffix f s

unfoldable pub star_case : (Bytes → Bytes → Bool) → Bytes → Bytes → Bool
unfolding any_suffix
star_case rec [] s = true
star_case rec (c ∷ p) s = any_suffix (rec (c ∷ p)) s

unfoldable pub match_head : (Bytes → Bytes → Bool) → Head → Bytes → Bool
unfolding star_case class_done class_scan skip_stars
match_head rec head_end [] = true
match_head rec head_end (x ∷ s) = false
match_head rec (head_star p) s = star_case rec (skip_stars p) s
match_head rec (head_any p) [] = false
match_head rec (head_any p) (x ∷ s) = rec p s
match_head rec (head_class p) s =
    class_done rec (is_negated p) s (class_scan false (first s) (class_body p))
match_head rec (head_byte c p) [] = false
match_head rec (head_byte c p) (x ∷ s) = if c == x then rec p s else false

unfoldable pub glob_rounds : ℕ → Bytes → Bytes → Bool
unfolding match_head head
glob_rounds zero p s = match_head (λ q t. false) (head p) s
glob_rounds (suc n) p s = match_head (glob_rounds n) (head p) s

-- GlobMatch
unfoldable pub glob_match : Bytes → Bytes → Bool
unfolding glob_rounds
glob_match p s = glob_rounds (length p) p s

class_test : glob_match (codes "h[^a-c]*lo") (codes "hello") ≡ true
unfolding glob_match
class_test = refl
