-- ===== src/Stream/Consume.antt =====
-- What the readers of src/main_server.cpp leave of a stream.
use sisop2_tf.Base.{
  ℕ, zero, suc, ◌+◌, ◌-◌, ◌*◌, ◌≤◌, ◌<◌, ◌≡◌, Bool, Bool-cases, inl, inr, ◌==◌, true, false, List,
  [], ◌∷◌, arith, length, drop,
}
use sisop2_tf.Stream.{
  IStream, good, scan_digits, is_digit, is_sign, scan_magnitude, scan_number, read_number,
  read_char, scan_char, read_bytes, skip_spaces,
}

-- A stream that is good only if it was good before, and then no longer than before.
pub record Shrinks (s t : IStream) : Type 0 where
  pub was_good : good t ≡ true → good s ≡ true
  pub shorter : good t ≡ true → length t.input ≤ length s.input

-- A stream that has failed before its end.
abbrev pub IsStuck : IStream → Type 0
IsStuck s = (s.fail ≡ true) × (s.eof ≡ false)

length-skip_spaces : (cs : List ℕ) → length (skip_spaces cs) ≤ length cs
unfolding skip_spaces
length-skip_spaces [] = omega arith
length-skip_spaces (c ∷ cs) = ground (arith, length-skip_spaces cs)

length-scan_digits : (acc : ℕ) (cs : List ℕ) → length (scan_digits acc cs).1 ≤ length cs
unfolding scan_digits
length-scan_digits acc [] = omega arith
length-scan_digits acc (c ∷ cs) = ground (arith, length-scan_digits (acc * 10 + (c - b'0')) cs)

length-drop : (n : ℕ) (cs : List ℕ) → length (drop n cs) ≤ length cs
length-drop zero cs = omega arith
length-drop (suc n) [] = omega arith
length-drop (suc n) (c ∷ cs) = omega (arith, length-drop n cs)

scan_magnitude-shorter :
    (most : ℕ) (negative : Bool) (cs : List ℕ)
    → length (scan_magnitude most negative cs).1.input ≤ length cs
unfolding scan_magnitude
scan_magnitude-shorter most negative [] = omega arith
scan_magnitude-shorter most negative (c ∷ cs) = elim (Bool-cases (is_digit c)) [
  | inl digit ↦ ground (arith, digit, length-scan_digits 0 (c ∷ cs))
  | inr other ↦ ground (arith, other)
]

scan_number-shorter :
    (most old : ℕ) (cs : List ℕ)
    → good (scan_number most old cs).1 ≡ true
    → length (scan_number most old cs).1.input ≤ length cs
unfolding scan_number
scan_number-shorter most old [] h = absurd (ground (arith, h))
scan_number-shorter most old (c ∷ cs) h = elim (Bool-cases (is_sign c)) [
  | inl has_sign ↦ ground (arith, has_sign, scan_magnitude-shorter most (c == b'-') cs)
  | inr unsigned ↦ ground (arith, unsigned, scan_magnitude-shorter most false (c ∷ cs))
]

pub read_number-Shrinks : (most old : ℕ) (s : IStream) → Shrinks s (read_number most old s).1
unfolding read_number
read_number-Shrinks most old s = record {
  was_good = λ h. ground (arith, h);
  shorter = λ h.
      ground
        (arith, h, scan_number-shorter most old (skip_spaces s.input), length-skip_spaces s.input);
}

pub read_bytes-Shrinks : (n : ℕ) (old : List ℕ) (s : IStream) → Shrinks s (read_bytes n old s).1
unfolding read_bytes
read_bytes-Shrinks n old s = record {
  was_good = λ h. ground (arith, h);
  shorter = λ h. ground (arith, h, length-drop n s.input);
}

scan_char-shorter :
    (old : ℕ) (cs : List ℕ)
    → good (scan_char old cs).1 ≡ true
    → length (scan_char old cs).1.input < length cs
scan_char-shorter old [] h = absurd (ground (arith, h))
scan_char-shorter old (c ∷ cs) h = omega arith

-- A character takes a byte.
pub read_char-shorter :
    (old : ℕ) (s : IStream)
    → good (read_char old s).1 ≡ true
    → length (read_char old s).1.input < length s.input
unfolding read_char
read_char-shorter old s h =
    ground (arith, h, scan_char-shorter old (skip_spaces s.input), length-skip_spaces s.input)

pub read_char-good : (old : ℕ) (s : IStream) → good (read_char old s).1 ≡ true → good s ≡ true
unfolding read_char
read_char-good old s h = ground (arith, h)

-- The readers do nothing on a stream that is stuck.
pub read_number-IsStuck :
    (most old : ℕ) (s : IStream) → IsStuck s → IsStuck (read_number most old s).1
unfolding read_number
read_number-IsStuck most old s h = ground (arith, h)

pub read_bytes-IsStuck :
    (n : ℕ) (old : List ℕ) (s : IStream) → IsStuck s → IsStuck (read_bytes n old s).1
unfolding read_bytes
read_bytes-IsStuck n old s h = ground (arith, h)

pub read_char-IsStuck : (old : ℕ) (s : IStream) → IsStuck s → IsStuck (read_char old s).1
unfolding read_char
read_char-IsStuck old s h = ground (arith, h)
