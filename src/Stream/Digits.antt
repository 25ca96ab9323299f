-- ===== src/Stream/Digits.antt =====
-- Decimal numbers that `std::ostream` prints (src/main_server.cpp), as `std::istream` scans them.
use sisop2_tf.Base.{
  ℕ, zero, suc, ◌+◌, ◌/◌, ◌%◌, ◌<◌, ◌≡◌, ◌∙◌, true, false, inl, inr, List, [], ◌∷◌, ◌++◌, arith,
  ltb, Bool-cases, append_assoc,
}
use sisop2_tf.Stream.{show_digits, show_nat, scan_digits, is_digit}

-- The digits of `n` bring the scanner from nothing to `n`.
scan_digits-show_digits :
    (fuel n : ℕ) (rest : List ℕ)
    → n < fuel
    → scan_digits 0 (show_digits fuel n ++ rest) ≡ scan_digits n rest
unfolding show_digits scan_digits
scan_digits-show_digits zero n rest h = absurd (omega arith)
scan_digits-show_digits (suc fuel) n rest h = elim (Bool-cases (ltb n 10)) [
  | inl small ↦ rw (small, show_digits) (ground (arith, small))
  | inr large ↦
      let d = b'0' + n % 10 in
      rw (large, show_digits, append_assoc (show_digits fuel (n / 10)) (d ∷ []) rest)
        (scan_digits-show_digits fuel (n / 10) (d ∷ rest) (ground (arith, large)) ∙ ground arith)
]

-- A printed number begins with a digit.
show_digits-cons :
    (fuel n : ℕ) (rest : List ℕ)
    → n < fuel
    → (c : ℕ) × (cs : List ℕ) × (show_digits fuel n ++ rest ≡ c ∷ cs) × (is_digit c ≡ true)
unfolding show_digits
show_digits-cons zero n rest h = absurd (omega arith)
show_digits-cons (suc fuel) n rest h = elim (Bool-cases (ltb n 10)) [
  | inl small ↦ (b'0' + n, rest, rw (small, show_digits), ground (arith, small))
  | inr large ↦
      let d = b'0' + n % 10 in
      let (c, cs, e, digit) = show_digits-cons fuel (n / 10) (d ∷ rest) (ground (arith, large)) in
      (
        c,
        cs,
        rw (large, show_digits) (append_assoc (show_digits fuel (n / 10)) (d ∷ []) rest ∙ e),
        digit,
      )
]

scan_digits_stops :
    (n c : ℕ) (rest : List ℕ) → is_digit c ≡ false → scan_digits n (c ∷ rest) ≡ (n, c ∷ rest)
unfolding scan_digits
scan_digits_stops n c rest h = rw h

pub scan_digits-show_nat :
    (n c : ℕ) (rest : List ℕ)
    → is_digit c ≡ false
    → scan_digits 0 (show_nat n ++ c ∷ rest) ≡ (n, c ∷ rest)
unfolding show_nat
scan_digits-show_nat n c rest h =
    scan_digits-show_digits (suc n) n (c ∷ rest) (omega arith) ∙ scan_digits_stops n c rest h

pub show_nat-cons :
    (n : ℕ) (rest : List ℕ)
    → (c : ℕ) × (cs : List ℕ) × (show_nat n ++ rest ≡ c ∷ cs) × (is_digit c ≡ true)
unfolding show_nat
show_nat-cons n rest = show_digits-cons (suc n) n rest (omega arith)
