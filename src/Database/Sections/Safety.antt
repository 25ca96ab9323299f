-- ===== src/Database/Sections/Safety.antt =====
-- What the section of the list of pending tweets (src/main_server.cpp) keeps apart.
use sisop2_tf.Base.{
  ℕ, ◌+◌, ◌≤◌, ◌<◌, ◌≡◌, refl, ◌≢◌, List, [], ◌∷◌, some, arith, get_elem?, Bool, true, false,
  Bool-cases, inl, inr, tally, tally-at, tally-two,
}
use sisop2_tf.Database.Sections.{
  Section, Phase, r_counted, r_passing, reading, r_leaving, w_queued, writing, System, Reach, start,
}
use sisop2_tf.Database.Sections.Holders.{
  has_try, is_reader, is_writer, is_r_first, is_w_first, is_writing,
}
use sisop2_tf.Database.Sections.Invariant.{Inv, tally_of, Reach-Inv}

-- Between taking the list, for itself or for all readers, and giving it back.
abbrev pub is_using : Phase → Bool
is_using r_counted = true
is_using r_passing = true
is_using reading = true
is_using r_leaving = true
is_using writing = true
is_using _ = false

tally-is_using :
    (ps : List Phase)
    → tally is_using ps + tally is_r_first ps ≤ tally is_reader ps + tally is_writing ps
unfolding tally
tally-is_using [] = omega arith
tally-is_using (p ∷ ps) = using_cons p ps (tally-is_using ps)
  where
    using_cons :
        (p : Phase) (ps : List Phase)
        → tally is_using ps + tally is_r_first ps ≤ tally is_reader ps + tally is_writing ps
        → tally is_using (p ∷ ps) + tally is_r_first (p ∷ ps)
          ≤ tally is_reader (p ∷ ps) + tally is_writing (p ∷ ps)
    using_cons p ps h = ground (arith, h)

using_once :
    {g : Section} (ps : List Phase)
    → Inv g (tally_of ps)
    → 0 < tally is_writing ps
    → tally is_using ps ≤ 1
using_once ps inv h = ground (arith, inv, tally-is_using ps, h)

-- In every state that any number of readers and writers of the list of pending tweets can reach from the
-- start, while a writer is at the list, no other thread is: neither a writer nor a reader.
pub writing-alone :
    (k : ℕ) {s : System} (i j : ℕ) {p : Phase}
    → Reach (start k) s
    → get_elem? s.threads i ≡ some writing
    → get_elem? s.threads j ≡ some p
    → j ≢ i
    → is_using p ≡ false
writing-alone k {s} i j {p} r at at' other = elim (Bool-cases (is_using p)) [
  | inl u ↦ absurd (
      ground (
        arith,
        using_once s.threads (Reach-Inv k r) (tally-at is_writing s.threads i at refl),
        tally-two is_using s.threads j i at' u at refl other,
      ))
  | inr free ↦ free
]

-- A writer that is past `LOPT_readTry`.
abbrev pub is_past : Phase → Bool
is_past w_queued = true
is_past writing = true
is_past _ = false

tally-is_past : (ps : List Phase) → tally is_past ps + tally is_w_first ps ≤ tally is_writer ps
unfolding tally
tally-is_past [] = omega arith
tally-is_past (p ∷ ps) = past_cons p ps (tally-is_past ps)
  where
    past_cons :
        (p : Phase) (ps : List Phase)
        → tally is_past ps + tally is_w_first ps ≤ tally is_writer ps
        → tally is_past (p ∷ ps) + tally is_w_first (p ∷ ps) ≤ tally is_writer (p ∷ ps)
    past_cons p ps h = ground (arith, h)

shut_out :
    {g : Section} (ps : List Phase)
    → Inv g (tally_of ps)
    → 0 < tally is_past ps
    → (g.read_try ≡ 0) × (tally has_try ps ≡ 0)
shut_out ps inv h = ground (arith, inv, tally-is_past ps, h)

-- In every state that any number of threads can reach from the start, while a writer waits for the list of
-- pending tweets with its place taken, or is at the list, `LOPT_readTry` is taken and no reader has it:
-- whoever wants to read waits before it is counted, so that the writers come first.
pub past-shuts_out :
    (k : ℕ) {s : System} (i j : ℕ) {p q : Phase}
    → Reach (start k) s
    → get_elem? s.threads i ≡ some q
    → is_past q ≡ true
    → get_elem? s.threads j ≡ some p
    → (s.section.read_try ≡ 0) × (has_try p ≡ false)
past-shuts_out k {s} i j {p} r at past at' =
    let (taken, none_has) =
      shut_out s.threads (Reach-Inv k r) (tally-at is_past s.threads i at past) in
    (
      taken,
      elim (Bool-cases (has_try p)) [
        | inl has ↦ absurd (ground (arith, none_has, tally-at has_try s.threads j at' has))
        | inr without ↦ without
      ],
    )
