-- ===== src/Stream/Laws.antt =====
-- Reading back what was written (src/main_server.cpp), in the middle of a file.
use sisop2_tf.Base.{
  ℕ, ◌≤◌, ◌≡◌, refl, sym, ◌∙◌, ap, true, false, List, [], ◌∷◌, ◌++◌, arith, leb, length, take, drop,
}
use sisop2_tf.Stream.{
  open_file, show_nat, scan_digits, scan_number, read_number, read_char, read_bytes, skip_spaces,
  is_digit, is_space, is_sign, scan_magnitude,
}
use sisop2_tf.Stream.Digits.{scan_digits-show_nat, show_nat-cons}

skip_spaces_none : (c : ℕ) (cs : List ℕ) → is_space c ≡ false → skip_spaces (c ∷ cs) ≡ c ∷ cs
unfolding skip_spaces
skip_spaces_none c cs h = rw h

digit_unsigned : (d : ℕ) → is_digit d ≡ true → is_sign d ≡ false
digit_unsigned d h = ground (arith, h)

scan_magnitude-digits :
    (most n c d : ℕ) (rest ds : List ℕ)
    → n ≤ most
    → is_digit d ≡ true
    → scan_digits 0 (d ∷ ds) ≡ (n, c ∷ rest)
    → scan_magnitude most false (d ∷ ds) ≡ (n, open_file (c ∷ rest))
unfolding scan_magnitude
scan_magnitude-digits most n c d rest ds h digit scanned = ground (arith, h, digit, scanned)

-- A number is read back from its digits, if no further digit follows and it fits its type.
pub read_number-show_nat :
    (most old n c : ℕ) (rest : List ℕ)
    → n ≤ most
    → is_digit c ≡ false
    → read_number most old (open_file (show_nat n ++ c ∷ rest)) ≡ (n, open_file (c ∷ rest))
unfolding read_number scan_number
read_number-show_nat most old n c rest h stop =
    let (d, ds, e, digit) = show_nat-cons n (c ∷ rest) in
    let scanned : scan_digits 0 (d ∷ ds) ≡ (n, c ∷ rest) =
      ap (scan_digits 0) (sym e) ∙ scan_digits-show_nat n c rest stop in
    let skipped = skip_spaces_none d ds (ground (arith, digit)) in
    let magnitude : scan_number most old (d ∷ ds) ≡ (n, open_file (c ∷ rest)) =
      rw (digit_unsigned d digit) (scan_magnitude-digits most n c d rest ds h digit scanned) in
    rw (e, skipped) magnitude

-- A separator is read back.
pub read_char_here :
    (old c : ℕ) (rest : List ℕ)
    → is_space c ≡ false
    → read_char old (open_file (c ∷ rest)) ≡ (c, open_file rest)
unfolding read_char
read_char_here old c rest h = rw (skip_spaces_none c rest h)

-- A newline before a byte is skipped, and the byte behind it is taken.
pub read_char_past_newline :
    (old c : ℕ) (rest : List ℕ)
    → is_space c ≡ false
    → read_char old (open_file (10 ∷ c ∷ rest)) ≡ (c, open_file rest)
unfolding read_char skip_spaces
read_char_past_newline old c rest h = rw h

-- No number begins with this byte, which is no sign: the value is 0, and the stream fails.
pub read_number_none :
    (most old c : ℕ) (rest : List ℕ)
    → is_digit c ≡ false
    → is_space c ≡ false
    → is_sign c ≡ false
    → read_number most old (open_file (c ∷ rest))
      ≡ (0, record { input = c ∷ rest; eof = false; fail = true })
unfolding read_number scan_number scan_magnitude
read_number_none most old c rest h k n = rw (skip_spaces_none c rest k) (rw (n, h) refl)

length-take-append : (xs ys : List ℕ) → leb (length xs) (length (xs ++ ys)) ≡ true
length-take-append [] ys = ground arith
length-take-append (x ∷ xs) ys = ground (arith, length-take-append xs ys)

take-length : (xs ys : List ℕ) → take (length xs) (xs ++ ys) ≡ xs
take-length [] ys = refl
take-length (x ∷ xs) ys = ap (◌∷◌ x) (take-length xs ys)

drop-length : (xs ys : List ℕ) → drop (length xs) (xs ++ ys) ≡ ys
drop-length [] ys = refl
drop-length (x ∷ xs) ys = drop-length xs ys

-- A block of bytes is read back by its length.
pub read_bytes_here :
    (old xs rest : List ℕ)
    → read_bytes (length xs) old (open_file (xs ++ rest)) ≡ (xs, open_file rest)
unfolding read_bytes
read_bytes_here old xs rest =
    rw (length-take-append xs rest, take-length xs rest, drop-length xs rest)
