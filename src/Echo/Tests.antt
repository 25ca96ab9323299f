-- ===== src/Echo/Tests.antt =====
-- The demonstration server (src/Server.cpp) at concrete inputs.
use sisop2_tf.Base.{ℕ, zero, suc, List, [], ◌∷◌, ◌++◌, refl, arith, Returns}
use sisop2_tf.Echo.{Read, failed, ended, got, Echo, echo_loop, IsEnded, Answers, echo_loop-Answers}

abbrev zeros : ℕ → List ℕ
zeros zero = []
zeros (suc n) = 0 ∷ zeros n

abbrev fresh : Echo
fresh = record { buffer = zeros 256; printed = []; answers = 0 }

fresh-IsEnded : IsEnded fresh.buffer
fresh-IsEnded = (zeros 255, refl, refl)

abbrev two_reads : List Read
two_reads = got (b'h' ∷ b'i' ∷ []) ∷ failed ∷ []

echo_loop-Answers_example :
    Returns (echo_loop (two_reads ++ ended ∷ []) fresh) (λ _ u. Answers fresh 2 u)
echo_loop-Answers_example =
    echo_loop-Answers two_reads [] fresh (omega arith, (tt, tt)) fresh-IsEnded
