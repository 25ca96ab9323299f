-- ===== src/Echo.antt =====
-- The demonstration server (src/Server.cpp): it reads from one connection, prints what is in its buffer
-- and answers, until the connection ends.
mod Tests
use sisop2_tf.Base.{
  ℕ, zero, suc, ◌+◌, ◌≤◌, ◌<◌, ◌≡◌, refl, sym, ap, ◌∙◌, List, [], ◌∷◌, ◌++◌, append_assoc, Option,
  none, some, Program, ok, blocked, fault, pure, gets, modify, or_fault, ◌>>=◌, ◌>>◌, length, drop,
  arith, All, length-append, append-nil, ◌≢◌, Returns-weaken, subst, >>=-ok, Returns, ◌==◌,
  if◌then◌else◌, Bool-cases, inl, inr,
}
use sisop2_tf.Message.{c_str}

-- What one `read` gives: an error, the end of the connection, or some bytes.
pub data Read : Type 0 where
  failed ended : Read
  got : List ℕ → Read

-- The buffer of 256 bytes, the texts printed, and the number of answers.
pub record Echo : Type 0 where
  pub buffer : List ℕ
  pub printed : List (List ℕ)
  pub answers : ℕ

-- The bytes of a read stand in front of what the buffer held.
abbrev pub read_into : List ℕ → List ℕ → List ℕ
read_into bytes buffer = bytes ++ drop (length bytes) buffer

-- `printf("%s")` of the buffer, and the answer, whether or not it can be written.
unfoldable pub print_and_answer : Program Echo (Unit {0})
print_and_answer = do
  buffer ← gets (λ s. s.buffer)
  text ← or_fault (c_str buffer)
  modify λ s. record s { printed = s.printed ++ text ∷ []; answers = s.answers + 1 }

-- The loop; it goes on after an error.
unfoldable pub echo_loop : List Read → Program Echo (Unit {0})
echo_loop [] = λ s. blocked s
echo_loop (ended ∷ rs) = pure tt
echo_loop (failed ∷ rs) = do print_and_answer; echo_loop rs
echo_loop (got bytes ∷ rs) = do
  modify λ s. record s { buffer = read_into bytes s.buffer }
  print_and_answer
  echo_loop rs

-- A read that leaves the last byte of the buffer as it is.
abbrev pub IsShort : Read → Type 0
IsShort failed = Unit
IsShort ended = ⊥
IsShort (got bytes) = length bytes < 256

c_str-ends : (xs : List ℕ) → (text : List ℕ) × (c_str (xs ++ 0 ∷ []) ≡ some text)
unfolding c_str
c_str-ends [] = ([], refl)
c_str-ends (x ∷ xs) =
    let (text, e) = c_str-ends xs in
    elim (Bool-cases (x == 0)) [
      | inl stop ↦ ([], ground (arith, stop))
      | inr go ↦ (x ∷ text, ground (arith, go, e))
    ]

drop-append : (n : ℕ) (xs ys : List ℕ) → n ≤ length xs → drop n (xs ++ ys) ≡ drop n xs ++ ys
drop-append zero xs ys h = refl
drop-append (suc n) [] ys h = absurd (omega (arith, h))
drop-append (suc n) (x ∷ xs) ys h = drop-append n xs ys (omega (arith, h))

c_str-none : (xs : List ℕ) → All (λ x. x ≢ 0) xs → c_str xs ≡ none
unfolding c_str
c_str-none [] h = refl
c_str-none (x ∷ xs) h = ground (arith, h.0, c_str-none xs h.1)

drop-all : (n : ℕ) (xs : List ℕ) → length xs ≤ n → drop n xs ≡ []
drop-all zero [] h = refl
drop-all zero (x ∷ xs) h = absurd (omega (arith, h))
drop-all (suc n) [] h = refl
drop-all (suc n) (x ∷ xs) h = drop-all n xs (omega (arith, h))

length-drop : (n : ℕ) (xs : List ℕ) → n ≤ length xs → length (drop n xs) + n ≡ length xs
length-drop zero xs h = omega arith
length-drop (suc n) [] h = absurd (omega (arith, h))
length-drop (suc n) (x ∷ xs) h = omega (arith, length-drop n xs (omega (arith, h)))

-- The last byte of the buffer is 0, as `bzero` left it.
abbrev pub IsEnded : List ℕ → Type 0
IsEnded buffer = (front : List ℕ) × (buffer ≡ front ++ 0 ∷ []) × (length front ≡ 255)

read_into-IsEnded :
    (bytes buffer : List ℕ) → length bytes < 256 → IsEnded buffer → IsEnded (read_into bytes buffer)
read_into-IsEnded bytes buffer short (front, e, long) =
    let fits : length bytes ≤ length front = omega (arith, short, long) in
    (
      bytes ++ drop (length bytes) front,
      ap (read_into bytes) e
          ∙ ap (λ xs. bytes ++ xs) (drop-append (length bytes) front (0 ∷ []) fits)
          ∙ sym (append_assoc bytes (drop (length bytes) front) (0 ∷ [])),
      omega (
        arith,
        length-append bytes (drop (length bytes) front),
        length-drop (length bytes) front fits,
        long,
      ),
    )

print_run :
    (s : Echo)
    → IsEnded s.buffer
    → (text : List ℕ) × (print_and_answer s
        ≡ ok tt (record s { printed = s.printed ++ text ∷ []; answers = s.answers + 1 }))
unfolding print_and_answer
print_run s (front, e, long) =
    let (text, reads) = c_str-ends front in (text, ground (arith, ap c_str e, reads))

-- What the loop owes: a text printed and an answer for each read.
abbrev pub Answers : Echo → ℕ → Echo → Type 0
Answers s n u = (u.answers ≡ s.answers + n) × (length u.printed ≡ length s.printed + n)

-- A round that prints and answers, and what follows.
one_more :
    (rs more : List Read) (s : Echo)
    → IsEnded s.buffer
    → ((u : Echo)
        → IsEnded u.buffer
        → Returns (echo_loop (rs ++ ended ∷ more) u) (λ _ v. Answers u (length rs) v))
    → Returns
        ((print_and_answer >> echo_loop (rs ++ ended ∷ more)) s)
        (λ _ v. Answers s (suc (length rs)) v)
one_more rs more s b rest =
    let (text, run) = print_run s b in
    let s₁ : Echo = record s { printed = s.printed ++ text ∷ []; answers = s.answers + 1 } in
    subst (λ o. Returns o (λ _ v. Answers s (suc (length rs)) v))
      (sym (>>=-ok print_and_answer (λ _. echo_loop (rs ++ ended ∷ more)) run))
      (Returns-weaken (λ _ v. Answers s₁ (length rs) v) (λ _ v. Answers s (suc (length rs)) v)
        (echo_loop (rs ++ ended ∷ more) s₁) (rest s₁ b)
        λ _ v (answered, printed).
          (omega (arith, answered), omega (arith, printed, length-append s.printed (text ∷ []))))

-- When each read gives fewer than 256 bytes or an error, and then the connection ends, the loop of the
-- demonstration server returns and has printed one text and given one answer for each read, those
-- that failed included, with no read past its buffer, whose last byte is 0 at the start.
pub echo_loop-Answers :
    (rs more : List Read) (s : Echo)
    → All IsShort rs
    → IsEnded s.buffer
    → Returns (echo_loop (rs ++ ended ∷ more) s) (λ _ u. Answers s (length rs) u)
unfolding echo_loop
echo_loop-Answers [] more s h b = (omega arith, omega arith)
echo_loop-Answers (ended ∷ rs) more s h b = absurd h.0
echo_loop-Answers (failed ∷ rs) more s h b =
    one_more rs more s b (λ u same. echo_loop-Answers rs more u h.1 same)
echo_loop-Answers (got bytes ∷ rs) more s h b =
    let b' = read_into-IsEnded bytes s.buffer h.0 b in
    one_more rs more (record s { buffer = read_into bytes s.buffer }) b'
      (λ u same. echo_loop-Answers rs more u h.1 same)

-- A read that fills the buffer with bytes other than 0 makes the server read past its end.
pub echo_loop-overrun :
    (bytes : List ℕ) (rs : List Read) (s : Echo)
    → All (λ b. b ≢ 0) bytes
    → length bytes ≡ length s.buffer
    → echo_loop (got bytes ∷ rs) s ≡ fault
unfolding echo_loop print_and_answer
echo_loop-overrun bytes rs s full same =
    let nothing : drop (length bytes) s.buffer ≡ [] =
      drop-all (length bytes) s.buffer (omega (arith, same)) in
    ground (arith, nothing, append-nil bytes, c_str-none bytes full)
