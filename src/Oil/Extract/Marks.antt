-- ===== src/Oil/Extract/Marks.antt =====
-- The loop that marks the parents of a directory as made.
use alpenglow.Prelude.{
  ℕ, zero, suc, ◌<◌, ◌≡◌, refl, List, ◌∷◌, arith, Bool-cases, Option-cases, inl, inr, length,
}
use alpenglow.Oil.FilePath.{Components, pop}
use alpenglow.Oil.Extract.{is_created, mark_parents}
use alpenglow.Oil.Extract.Walk.{length-pop}

-- The loop ends within the number of components of the directory: any two numbers of steps that are more
-- than it give the same set.
pub mark_parents-enough :
    (n m : ℕ) (current : Components) (set : List Components)
    → length current < n
    → length current < m
    → mark_parents n current set ≡ mark_parents m current set
unfolding mark_parents
mark_parents-enough zero m current set h k = absurd (omega (arith, h))
mark_parents-enough (suc n) zero current set h k = absurd (omega (arith, k))
mark_parents-enough (suc n) (suc m) current set h k = elim (Bool-cases (is_created set current)) [
  | inl created ↦ rw created refl
  | inr absent ↦ elim (Option-cases (pop current)) [
    | inl root ↦ rw (absent, root) refl
    | inr (parent, e) ↦
        rw (absent, e)
          (mark_parents-enough n m parent (current ∷ set) (omega (arith, h, length-pop current e))
            (omega (arith, k, length-pop current e)))
  ]
]
