-- ===== src/Stream.antt =====
-- The parts of `std::ostream` and `std::istream` that src/main_server.cpp uses on its files. Output
-- is the list of the bytes written.
pub mod Digits
pub mod Laws
pub mod Consume
use sisop2_tf.Base.{
  ℕ, zero, suc, ◌+◌, ◌-◌, ◌*◌, ◌/◌, ◌%◌, ◌^◌, Bool, true, false, not, ◌&&◌, ◌||◌, List, [], ◌∷◌,
  ◌++◌, ltb, leb, ◌==◌, if◌then◌else◌, length, take, drop,
}

-- `os << n` for an unsigned number, with fuel for its digits.
unfoldable pub show_digits : ℕ → ℕ → List ℕ
show_digits zero n = []
show_digits (suc fuel) n = elim (ltb n 10) [
  | true ↦ (b'0' + n) ∷ []
  | false ↦ show_digits fuel (n / 10) ++ (b'0' + n % 10) ∷ []
]

unfoldable pub show_nat : ℕ → List ℕ
unfolding show_digits
show_nat n = show_digits (suc n) n

-- The bytes that are left, `eofbit` and `failbit`.
pub record IStream : Type 0 where
  pub input : List ℕ
  pub eof : Bool
  pub fail : Bool

abbrev pub good : IStream → Bool
good s = not s.eof && not s.fail

-- `open` on a file with these bytes.
abbrev pub open_file : List ℕ → IStream
open_file bytes = record { input = bytes; eof = false; fail = false }

abbrev pub is_space : ℕ → Bool
is_space c = c == 32 || (leb 9 c && leb c 13)

abbrev pub is_digit : ℕ → Bool
is_digit c = leb b'0' c && leb c b'9'

unfoldable pub skip_spaces : List ℕ → List ℕ
skip_spaces [] = []
skip_spaces (c ∷ cs) = let rest = skip_spaces cs in if is_space c then rest else c ∷ cs

abbrev is_empty : List ℕ → Bool
is_empty [] = true
is_empty (c ∷ cs) = false

-- The number that the leading digits make after `acc`, and what follows them.
unfoldable pub scan_digits : ℕ → List ℕ → ℕ × List ℕ
scan_digits acc [] = (acc, [])
scan_digits acc (c ∷ cs) =
    let rest = scan_digits (acc * 10 + (c - b'0')) cs in if is_digit c then rest else (acc, c ∷ cs)

abbrev pub is_sign : ℕ → Bool
is_sign c = c == b'+' || c == b'-'

-- The greatest `int`. A negative one is its remainder by 2 ^ 32, as elsewhere.
abbrev pub int_max : ℕ
int_max = 2 ^ 31 - 1

-- How large a number may be behind a sign, what it is then, and what replaces it if it is larger:
-- an unsigned type wraps around.
abbrev magnitude_max : ℕ → Bool → ℕ
magnitude_max most negative = if negative && most == int_max then 2 ^ 31 else most

abbrev modulus : ℕ → ℕ
modulus most = if most == int_max then 2 ^ 32 else most + 1

abbrev signed : ℕ → Bool → ℕ → ℕ
signed most negative n = if negative then (modulus most - n) % modulus most else n

abbrev out_of_range : ℕ → Bool → ℕ
out_of_range most negative = if negative && most == int_max then 2 ^ 31 else most

-- The digits of a number behind its sign.
unfoldable pub scan_magnitude : ℕ → Bool → List ℕ → ℕ × IStream
scan_magnitude most negative [] = (0, record { input = []; eof = true; fail = true })
scan_magnitude most negative (c ∷ cs) =
    if is_digit c
    then (let (n, rest) = scan_digits 0 (c ∷ cs) in
        if leb n (magnitude_max most negative)
        then (signed most negative n, record { input = rest; eof = is_empty rest; fail = false })
        else (
          out_of_range most negative,
          record { input = rest; eof = is_empty rest; fail = true },
        ))
    else (0, record { input = c ∷ cs; eof = false; fail = true })

-- A number up to `most` from input with its spaces skipped, after a sign if there is one.
unfoldable pub scan_number : ℕ → ℕ → List ℕ → ℕ × IStream
scan_number most old [] = (old, record { input = []; eof = true; fail = true })
scan_number most old (c ∷ cs) =
    if is_sign c then scan_magnitude most (c == b'-') cs else scan_magnitude most false (c ∷ cs)

-- `is >> n` into a variable that holds `old`.
unfoldable pub read_number : ℕ → ℕ → IStream → ℕ × IStream
unfolding scan_number skip_spaces
read_number most old s =
    if good s then scan_number most old (skip_spaces s.input) else (old, record s { fail = true })

abbrev pub scan_char : ℕ → List ℕ → ℕ × IStream
scan_char old [] = (old, record { input = []; eof = true; fail = true })
scan_char old (c ∷ cs) = (c, record { input = cs; eof = false; fail = false })

-- `is >> c` for a `char` that holds `old`.
unfoldable pub read_char : ℕ → IStream → ℕ × IStream
unfolding skip_spaces
read_char old s =
    if good s then scan_char old (skip_spaces s.input) else (old, record s { fail = true })

-- `is.read(p, n)` into `old`, an array of `n` bytes.
unfoldable pub read_bytes : ℕ → List ℕ → IStream → List ℕ × IStream
read_bytes n old s =
    if good s
    then (if leb n (length s.input)
        then (take n s.input, record s { input = drop n s.input })
        else (s.input ++ drop (length s.input) old, record { input = []; eof = true; fail = true }))
    else (old, record s { fail = true })
