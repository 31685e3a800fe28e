-- ===== src/Panes/Text.antt =====
-- The functions of Go's `strings` that the log panel uses, on texts as bytes.
use Prim.Native.Char.{code}
use randomshitgo_go.Prelude.{
  ℕ, zero, suc, ◌-◌, List, [], ◌∷◌, ◌++◌, Bool, true, false, ◌&&◌, ◌||◌, if◌then◌else◌, length, leb,
  ◌==◌, get_or, take, drop, String,
}

-- The bytes of an ASCII text.
abbrev pub codes : String → List ℕ
codes String.[] = []
codes (String.◌∷◌ c s) = code c ∷ codes s

abbrev pub is_blank : ℕ → Bool
is_blank b = b == 0x20 || b == 9

-- `strings.TrimLeft(s, " \t")` and `strings.TrimRight(s, " \t")`
unfoldable pub trim_left : List ℕ → List ℕ
trim_left [] = []
trim_left (b ∷ bs) = let rest = trim_left bs in if is_blank b then rest else b ∷ bs

abbrev pub cons_unless : Bool → ℕ → List ℕ → List ℕ
cons_unless blank b [] = if blank then [] else b ∷ []
cons_unless blank b (c ∷ cs) = b ∷ c ∷ cs

unfoldable pub trim_right : List ℕ → List ℕ
trim_right [] = []
trim_right (b ∷ bs) = cons_unless (is_blank b) b (trim_right bs)

-- The number of bytes of the space that a UTF-8 text begins with, or 0.
abbrev pub space_width : List ℕ → ℕ
space_width s =
    let a = get_or s 0 0 in
    let b = get_or s 1 0 in
    let c = get_or s 2 0 in
    if length s == 0
    then 0
    else if a == 0x20 || (leb 9 a && leb a 13)
    then 1
    else if a == 0xc2 && (b == 0x85 || b == 0xa0)
    then 2
    else if (a == 0xe1 && b == 0x9a && c == 0x80)
        || (a == 0xe2
            && b == 0x80
            && ((leb 0x80 c && leb c 0x8a) || c == 0xa8 || c == 0xa9 || c == 0xaf))
        || (a == 0xe2 && b == 0x81 && c == 0x9f)
        || (a == 0xe3 && b == 0x80 && c == 0x80)
    then 3
    else 0

-- The two ends of `strings.TrimSpace`; as many rounds as there are bytes are enough.
unfoldable pub skip_space : ℕ → List ℕ → List ℕ
skip_space zero s = s
skip_space (suc fuel) s =
    let rest = skip_space fuel (drop (space_width s) s) in if space_width s == 0 then s else rest

unfoldable pub cut_space : ℕ → List ℕ → List ℕ
cut_space zero s = []
cut_space (suc fuel) [] = []
cut_space (suc fuel) (b ∷ bs) =
    let n = space_width (b ∷ bs) in
    let past = cut_space fuel (drop n (b ∷ bs)) in
    let after = cut_space fuel bs in
    if n == 0 then b ∷ after else if length past == 0 then [] else take n (b ∷ bs) ++ past

unfoldable pub trim_space : List ℕ → List ℕ
unfolding skip_space cut_space
trim_space s = let t = skip_space (length s) s in cut_space (length t) t

abbrev pub upper : ℕ → ℕ
upper b = if leb b'a' b && leb b b'z' then b - 32 else b

-- `strings.EqualFold`, where the second text is ASCII and the two are of one length.
abbrev pub equal_fold : List ℕ → List ℕ → Bool
equal_fold [] [] = true
equal_fold [] (k ∷ ks) = false
equal_fold (b ∷ bs) [] = false
equal_fold (b ∷ bs) (k ∷ ks) = upper b == upper k && equal_fold bs ks
